-- ===== src/Fs/Cpu/Bandwidth.antt =====
-- The bandwidth in version 2: one file holds the quota and the period, and a setter of one reads
-- the file to keep the other.
use cgroups_rs.Base.{
  unwrap_or, leb_ℤ, ltb_ℤ, pos, none, some, if◌then◌else◌, false, Bool-cases, inl, inr, arith, ℕ, ℤ,
  ◌≤◌, Bool, true, ◌≡◌, refl, [], ◌∷◌, ◌++◌, ok, Option, ◌==◌,
}
use cgroups_rs.Text.{Text, codes, trim}
use cgroups_rs.Text.Trim.{trim-words, Visible-no_space}
use cgroups_rs.Text.Split.{split, split_by-append, split_by-Free}
use cgroups_rs.Number.{max_u64}
use cgroups_rs.Number.Print.{print, parse_uint-print, print-IsDigit}
use cgroups_rs.Fs.Host.{Host, Place, push}
use cgroups_rs.Fs.Stored.{Stored, read_text-content, write_value-written}
use cgroups_rs.Fs.MaxValue.{MaxValue, max, value, to_i64, print_max_value}
use cgroups_rs.Fs.MaxValue.RoundTrip.{
  IsInRange, parse_max_value-print_max_value, print_max_value-Visible, digits-Visible,
}
use cgroups_rs.Fs.Cpu.{
  CfsQuotaAndPeriod, quota_and_period_of, parse_cfs_quota_and_period, new_quota, new_period,
  rewrite_cpu_max, set_cfs_quota_and_period, cfs_quota, cfs_period,
}

-- What the file can hold.
abbrev pub IsBandwidth : CfsQuotaAndPeriod → Type 0
IsBandwidth b = IsInRange b.quota × (b.period ≤ max_u64)

-- The line of the file.
unfoldable pub line_of : CfsQuotaAndPeriod → Text
unfolding print_max_value print
line_of b = print_max_value b.quota ++ b' ' ∷ print b.period

-- The quota that a setter is to leave: the given one, or none if that is not positive.
abbrev pub wanted_quota : Option ℤ → MaxValue → MaxValue
wanted_quota none old = old
wanted_quota (some q) old = if leb_ℤ q (pos 0) then max else value q

-- The bandwidth with a new quota and a new period, where they are given.
abbrev pub updated : Option ℤ → Option ℕ → CfsQuotaAndPeriod → CfsQuotaAndPeriod
updated quota period b = record {
  quota = wanted_quota quota b.quota;
  period = unwrap_or period b.period;
}

positive : (q : ℤ) → ltb_ℤ (pos 0) q ≡ true → leb_ℤ q (pos 0) ≡ false
positive q e = ground arith

not_positive : (q : ℤ) → ltb_ℤ (pos 0) q ≡ false → leb_ℤ q (pos 0) ≡ true
not_positive q e = ground arith

quota_written :
    (quota : Option ℤ) (b : CfsQuotaAndPeriod)
    → new_quota quota b ≡ print_max_value (wanted_quota quota b.quota)
unfolding new_quota print_max_value
quota_written none b = refl
quota_written (some q) b = elim (Bool-cases (ltb_ℤ (pos 0) q)) [
  | inl e ↦ rw (e, positive q e) refl
  | inr e ↦ rw (e, not_positive q e) refl
]

period_written :
    (period : Option ℕ) (b : CfsQuotaAndPeriod)
    → new_period period b ≡ print (unwrap_or period b.period)
unfolding new_period
period_written none b = refl
period_written (some p) b = refl

abbrev is_space : ℕ → Bool
is_space c = c == b' '

line-split :
    (b : CfsQuotaAndPeriod)
    → split b' ' (trim (line_of b ++ b'\n' ∷ [])) ≡ print_max_value b.quota ∷ print b.period ∷ []
unfolding line_of
line-split b =
    let (c, s, e, v) = print_max_value-Visible b.quota in
    let (d, t, f, digit, digits) = print-IsDigit b.period in
    let w = digits-Visible (d ∷ t) (digit, digits) in
    rw e (
      rw f (
        rw (trim-words c s d t v w) (
          rw (split_by-append is_space (c ∷ s) b' ' (d ∷ t) (Visible-no_space (c ∷ s) v) refl)
            (rw (split_by-Free is_space (d ∷ t) (Visible-no_space (d ∷ t) w)) refl))))

module _ (h : Host) where
  fields-read :
      (b : CfsQuotaAndPeriod) (content : Text) (s : h.State)
      → IsBandwidth b
      → quota_and_period_of h content (print_max_value b.quota ∷ print b.period ∷ []) s ≡ (ok b, s)
  unfolding quota_and_period_of
  fields-read b content s (hq, hp) =
      rw (parse_max_value-print_max_value b.quota hq)
        (rw (parse_uint-print max_u64 b.period hp) refl)

  module _ (c : Place) (k : Stored h (push c.path (codes "cpu.max"))) where
    -- The file holds a bandwidth.
    abbrev Holds : h.State → CfsQuotaAndPeriod → Type 0
    Holds s b = k.content s ≡ line_of b ++ b'\n' ∷ []

    line-read :
        (b : CfsQuotaAndPeriod) (s : h.State)
        → IsBandwidth b
        → Holds s b
        → parse_cfs_quota_and_period h c s ≡ (ok b, s)
    unfolding parse_cfs_quota_and_period
    line-read b s r e =
        rw (read_text-content h c (codes "cpu.max") k (codes "cpu.max") s)
          (rw e (rw (line-split b) (fields-read b (line_of b ++ b'\n' ∷ []) s r)))

    rewrite_cpu_max-written :
        (b : CfsQuotaAndPeriod) (quota : Option ℤ) (period : Option ℕ) (s : h.State)
        → IsBandwidth b
        → Holds s b
        → k.Accepted (line_of (updated quota period b))
        → rewrite_cpu_max h c quota period s
          ≡ (ok tt, k.written (line_of (updated quota period b)) s)
    unfolding rewrite_cpu_max line_of
    rewrite_cpu_max-written b quota period s r e a = rw (line-read b s r e) (
        rw (quota_written quota b) (
          rw (period_written period b)
            (write_value-written h c (codes "cpu.max") k (line_of (updated quota period b)) s a)))

    -- In version 2, `set_cfs_quota_and_period` on a file that holds a bandwidth in the ranges of
    -- its types, with a new bandwidth in these ranges that the kernel accepts, succeeds. Read back
    -- then, the quota is the given one if it is positive, -1 (no limit) if the given one is not
    -- positive, and the old one if none is given; the period is the given one, and the old one if
    -- none is given.
    pub set_cfs_quota_and_period-cfs :
        (b : CfsQuotaAndPeriod) (quota : Option ℤ) (period : Option ℕ) (s : h.State)
        → c.v2 ≡ true
        → IsBandwidth b
        → Holds s b
        → IsBandwidth (updated quota period b)
        → k.Accepted (line_of (updated quota period b))
        → (after : h.State) × (set_cfs_quota_and_period h c quota period s ≡ (ok tt, after))
          × (cfs_quota h c after ≡ (ok (to_i64 (wanted_quota quota b.quota)), after))
          × (cfs_period h c after ≡ (ok (unwrap_or period b.period), after))
    unfolding set_cfs_quota_and_period cfs_quota cfs_period
    set_cfs_quota_and_period-cfs b quota period s v r e n a =
        let line = line_of (updated quota period b) in
        let after = k.written line s in
        let back = line-read (updated quota period b) after n (k.kept line s a) in
        (
          after,
          rw v (rewrite_cpu_max-written b quota period s r e a),
          rw v (rw back refl),
          rw v (rw back refl),
        )
