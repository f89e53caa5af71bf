-- ===== src/Number.antt =====
-- `parse` and `to_string` of the standard library's integers, in decimal.
pub mod Print
pub mod Signed
use cgroups_rs.Base.{
  ℕ, ◌+◌, ◌-◌, ◌*◌, ◌^◌, ◌≤◌, ◌<◌, ◌≡◌, ◌≢◌, refl, Bool, true, false, ◌&&◌, ◌||◌, List, [], ◌∷◌,
  Option, none, some, arith, ltb, leb, ◌==◌, if◌then◌else◌, is_empty, All, Bool-cases, inl, inr,
}
use cgroups_rs.Text.{Text, codes}

abbrev pub max_u64 : ℕ
max_u64 = 2 ^ 64 - 1

abbrev pub max_u128 : ℕ
max_u128 = 2 ^ 128 - 1

abbrev pub IsDigit : ℕ → Type 0
IsDigit c = (b'0' ≤ c) × (c ≤ b'9')

-- The digits of `from_str_radix` behind the number `n`; a checked multiplication and addition.
unfoldable pub scan : ℕ → Text → ℕ → Option ℕ
scan max [] n = some n
scan max (c ∷ s) n =
    if leb b'0' c && leb c b'9'
    then (if leb (n * 10 + (c - b'0')) max then scan max s (n * 10 + (c - b'0')) else none)
    else none

-- A run of at least one digit.
unfoldable pub parse_digits : ℕ → Text → Option ℕ
unfolding scan
parse_digits max [] = none
parse_digits max (c ∷ s) = scan max (c ∷ s) 0

-- `parse::<u64>()` and the other unsigned types, by the largest value: a plus sign may lead.
unfoldable pub parse_uint : ℕ → Text → Option ℕ
unfolding parse_digits
parse_uint max [] = none
parse_uint max (c ∷ s) = if c == b'+' then parse_digits max s else parse_digits max (c ∷ s)

abbrev pub parse_u64 : Text → Option ℕ
parse_u64 = parse_uint max_u64

-- Digits give a number within the bound.
scan-le :
    (max : ℕ) (s : Text) (n r : ℕ) → n ≤ max → scan max s n ≡ some r → (r ≤ max) × All IsDigit s
unfolding scan
scan-le max [] n r fits h = ground arith
scan-le max (c ∷ s) n r fits h = ground (arith, scan-le max s (n * 10 + (c - b'0')) r)

parse_digits-le :
    (max : ℕ) (s : Text) (r : ℕ) → parse_digits max s ≡ some r → (r ≤ max) × All IsDigit s
unfolding parse_digits
parse_digits-le max [] r h = cc
parse_digits-le max (c ∷ s) r h = scan-le max (c ∷ s) 0 r (omega arith) h

pub parse_uint-le : (max : ℕ) (s : Text) (r : ℕ) → parse_uint max s ≡ some r → r ≤ max
unfolding parse_uint
parse_uint-le max [] r h = cc
parse_uint-le max (c ∷ s) r h = elim (Bool-cases (c == b'+')) [
  | inl e ↦ (parse_digits-le max s r (rw e at h)).0
  | inr e ↦ (parse_digits-le max (c ∷ s) r (rw e at h)).0
]

-- Digits are read the same way with or without the test for a plus sign.
pub parse_uint-digits :
    (max : ℕ) (c : ℕ) (s : Text) → IsDigit c → parse_uint max (c ∷ s) ≡ scan max (c ∷ s) 0
unfolding parse_uint
parse_uint-digits max c s h = ground arith

parse_test : parse_u64 (codes "+007") ≡ some 7
unfolding parse_uint
parse_test = refl

parse_refused :
    (parse_u64 (codes "18446744073709551616") ≡ none)
    × (parse_u64 (codes "-1") ≡ none)
    × (parse_u64 (codes "+") ≡ none)
    × (parse_u64 (codes "1 ") ≡ none)
unfolding parse_uint
parse_refused = (refl, refl, refl, refl)
