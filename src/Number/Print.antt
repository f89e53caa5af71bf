-- ===== src/Number/Print.antt =====
-- The decimal print of an unsigned number, and that it is read back.
use cgroups_rs.Base.{
  ℕ, zero, suc, ◌+◌, ◌/◌, ◌%◌, ◌≤◌, ◌<◌, ◌≡◌, refl, [], ◌∷◌, some, arith, ltb, if◌then◌else◌, All,
  inl, inr, Bool-cases,
}
use cgroups_rs.Text.{Text, codes}
use cgroups_rs.Number.{IsDigit, scan, parse_digits, parse_uint, parse_uint-digits}

-- The digits of `n` in front of `out`. Each round divides by ten, so `n + 1` rounds are enough.
emit : ℕ → ℕ → Text → Text
emit zero n out = out
emit (suc rounds) n out =
    let rest = emit rounds (n / 10) ((b'0' + n % 10) ∷ out) in
    if ltb n 10 then (b'0' + n) ∷ out else rest

-- `n.to_string()`
unfoldable pub print : ℕ → Text
unfolding emit
print n = emit (n + 1) n []

-- What is printed starts with a digit and holds only digits, whatever stands behind it.
emit-IsDigit :
    (rounds n : ℕ) (out : Text)
    → n < rounds
    → All IsDigit out
    → (c : ℕ) × (s : Text) × (emit rounds n out ≡ c ∷ s) × IsDigit c × All IsDigit s
unfolding emit
emit-IsDigit zero n out h _ = elim h [ ]
emit-IsDigit (suc rounds) n out h d = elim (Bool-cases (ltb n 10)) [
  | inl e ↦ (b'0' + n, out, rw e, ground arith, d)
  | inr e ↦ rw e (
      emit-IsDigit rounds (n / 10) ((b'0' + n % 10) ∷ out) (ground arith)
        ((omega arith, omega arith), d))
]

scan-emit :
    (max rounds n : ℕ) (out : Text)
    → n < rounds
    → n ≤ max
    → scan max (emit rounds n out) 0 ≡ scan max out n
unfolding emit scan
scan-emit max zero n out h fits = elim h [ ]
scan-emit max (suc rounds) n out h fits =
    ground (arith, scan-emit max rounds (n / 10) ((b'0' + n % 10) ∷ out))

pub print-IsDigit : (n : ℕ) → (c : ℕ) × (s : Text) × (print n ≡ c ∷ s) × IsDigit c × All IsDigit s
unfolding print
print-IsDigit n = emit-IsDigit (n + 1) n [] (omega arith) tt

scan-print : (max n : ℕ) → n ≤ max → scan max (print n) 0 ≡ some n
unfolding print scan
scan-print max n h = scan-emit max (n + 1) n [] (omega arith) h

-- A number within the bound is read back from its print.
pub parse_uint-print : (max n : ℕ) → n ≤ max → parse_uint max (print n) ≡ some n
parse_uint-print max n h =
    let (c, s, e, d, _) = print-IsDigit n in
    rw e (rw (parse_uint-digits max c s d) (rw (← e) (scan-print max n h)))

parse_digits-cons : (max c : ℕ) (s : Text) → parse_digits max (c ∷ s) ≡ scan max (c ∷ s) 0
unfolding parse_digits
parse_digits-cons max c s = refl

pub parse_digits-print : (max n : ℕ) → n ≤ max → parse_digits max (print n) ≡ some n
parse_digits-print max n h =
    let (c, s, e, d, _) = print-IsDigit n in
    rw e (rw (parse_digits-cons max c s) (rw (← e) (scan-print max n h)))

print_test : print 18446744073709551615 ≡ codes "18446744073709551615"
unfolding print
print_test = refl
