-- ===== src/Manager/Limits/Pids.antt =====
-- The limit on processes of a container.
use cgroups_rs.Base.{
  ℤ, pos, ◌≤ℤ◌, ◌<ℤ◌, ◌≡◌, refl, some, ok, arith, IsI64, ltb_ℤ, inl, inr, Bool-cases,
}
use cgroups_rs.Text.{codes}
use cgroups_rs.Fs.Host.{Host, Place, push}
use cgroups_rs.Fs.Stored.{Stored}
use cgroups_rs.Fs.MaxValue.{MaxValue, max, value, print_max_value}
use cgroups_rs.Fs.MaxValue.RoundTrip.{IsInRange}
use cgroups_rs.Fs.Pid.{get_pid_max}
use cgroups_rs.Fs.Pid.Limit.{set_pid_max-written, get_pid_max-content}
use cgroups_rs.Manager.Limits.{set_pids, pid_limit}

-- What the limit of a container must be: none unless it is positive.
abbrev pub IsLimitOf : ℤ → MaxValue → Type 0
IsLimitOf limit max = limit ≤ℤ pos 0
IsLimitOf limit (value z) = (pos 0 <ℤ limit) × (z ≡ limit)

pid_limit-IsLimitOf : (limit : ℤ) → IsLimitOf limit (pid_limit limit)
pid_limit-IsLimitOf limit = elim (Bool-cases (ltb_ℤ (pos 0) limit)) [
  | inl e ↦ rw e (ground arith, refl)
  | inr e ↦ rw e (ground arith)
]

pid_limit-IsInRange : (limit : ℤ) → IsI64 limit → IsInRange (pid_limit limit)
pid_limit-IsInRange limit r = elim (Bool-cases (ltb_ℤ (pos 0) limit)) [
  | inl e ↦ rw e r
  | inr e ↦ rw e tt
]

module _ (h : Host) (c : Place) (k : Stored h (push c.path (codes "pids.max"))) where
  -- Where the kernel accepts the limit and the file keeps it, `set_pids` with an `i64` succeeds, and
  -- the controller then reads a limit m: the given number if it is positive, and no limit if not.
  pub set_pids-get_pid_max :
      (limit : ℤ) (s : h.State)
      → IsI64 limit
      → k.Accepted (print_max_value (pid_limit limit))
      → (after : h.State) × (m : MaxValue) × (set_pids h (some c) limit s ≡ (ok tt, after))
        × (get_pid_max h c after ≡ (ok m, after))
        × IsLimitOf limit m
  unfolding set_pids
  set_pids-get_pid_max limit s r a =
      let m = pid_limit limit in
      let after = k.written (print_max_value m) s in
      (
        after,
        m,
        rw (set_pid_max-written h c k m s a) refl,
        get_pid_max-content h c k m after (pid_limit-IsInRange limit r)
            (k.kept (print_max_value m) s a),
        pid_limit-IsLimitOf limit,
      )
