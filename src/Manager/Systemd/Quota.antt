-- ===== src/Manager/Systemd/Quota.antt =====
-- manager/systemd.rs, `set_cpu`: the quota that systemd is given.
use cgroups_rs.Base.{ℕ, ◌+◌, ◌*◌, ◌/◌, ◌%◌, ◌^◌, ◌<◌, ◌≤◌, ◌≡◌, arith}
use native.Mathlib.Nat.{
  mod-eq_of_lt, mul-le-mul_right, div-le_self, div-mul-le_self, div-lt_iff_lt-mul,
}
use cgroups_rs.Manager.Systemd.{rounded, quota_per_second}

rounded_lem :
    (q : ℕ)
    → q + 10000 < 2 ^ 64
    → (rounded q % 10000 ≡ 0) × (q ≤ rounded q) × (rounded q < q + 10000)
unfolding rounded
rounded_lem q l = ground arith

-- Without overflow, the processor time in a second is a whole number of 10 ms, at most one
-- microsecond below the exact quotient and less than 10 ms above it.
pub quota_per_second-bounds :
    (quota period : ℕ)
    → 0 < period
    → quota * 1000000 + 10000 < 2 ^ 64
    → (quota_per_second quota period % 10000 ≡ 0)
      × (quota * 1000000 < (quota_per_second quota period + 1) * period)
      × (quota_per_second quota period * period < quota * 1000000 + 10000 * period)
unfolding quota_per_second
quota_per_second-bounds quota period p l =
    let exact = quota * 1000000 in
    let f = exact / period in
    let small : f ≤ exact = div-le_self exact period in
    let same : exact % 2 ^ 64 ≡ exact = mod-eq_of_lt (omega (arith, l)) in
    let (even, low, high) = rounded_lem f (omega (arith, l, small)) in
    let above : rounded f * period ≤ (f + 9999) * period =
      mul-le-mul_right period (omega (arith, high)) in
    let under : f * period ≤ exact = div-mul-le_self exact period in
    rw same (even, (div-lt_iff_lt-mul p).0 (omega (arith, low)), omega (arith, p, under, above))
