-- ===== src/Number/Signed.antt =====
-- `parse` and `to_string` of the signed integers.
use cgroups_rs.Base.{
  ℕ, ◌+◌, ◌-◌, ◌^◌, ◌≤◌, ◌≡◌, refl, [], ◌∷◌, Option, none, some, arith, ◌==◌, if◌then◌else◌, ℤ, pos,
  negsuc, neg_ℕ, IsI64, ◌<◌, pos_part, neg_part,
}
use mathlib.Core.Option
use native.Mathlib.Numerals.{add-one}
use cgroups_rs.Text.{Text, codes}
use cgroups_rs.Number.{IsDigit, parse_digits}
use cgroups_rs.Number.Print.{print, print-IsDigit, parse_digits-print}

-- `parse` of a signed type with `width` bits besides the sign.
unfoldable pub parse_int : ℕ → Text → Option ℤ
unfolding parse_digits
parse_int width [] = none
parse_int width (c ∷ s) =
    if c == b'-'
    then Option.map neg_ℕ (parse_digits (2 ^ width) s)
    else if c == b'+'
    then Option.map pos (parse_digits (2 ^ width - 1) s)
    else Option.map pos (parse_digits (2 ^ width - 1) (c ∷ s))

abbrev pub parse_i64 : Text → Option ℤ
parse_i64 = parse_int 63

abbrev pub parse_i16 : Text → Option ℤ
parse_i16 = parse_int 15

-- `z.to_string()`
unfoldable pub print_int : ℤ → Text
unfolding print
print_int (pos n) = print n
print_int (negsuc n) = b'-' ∷ print (n + 1)

parse_int-digits :
    (width c : ℕ) (s : Text)
    → IsDigit c
    → parse_int width (c ∷ s) ≡ Option.map pos (parse_digits (2 ^ width - 1) (c ∷ s))
unfolding parse_int
parse_int-digits width c s h = ground arith

parse_int-pos : (width n : ℕ) → n ≤ 2 ^ width - 1 → parse_int width (print n) ≡ some (pos n)
parse_int-pos width n h =
    let (c, s, e, d, _) = print-IsDigit n in
    rw e (
      rw (parse_int-digits width c s d)
        (rw (← e) (rw (parse_digits-print (2 ^ width - 1) n h) refl)))

parse_int-minus :
    (width : ℕ) (s : Text)
    → parse_int width (b'-' ∷ s) ≡ Option.map neg_ℕ (parse_digits (2 ^ width) s)
unfolding parse_int
parse_int-minus width s = refl

parse_int-neg :
    (width n : ℕ) → n + 1 ≤ 2 ^ width → parse_int width (b'-' ∷ print (n + 1)) ≡ some (negsuc n)
parse_int-neg width n h =
    rw (parse_int-minus width (print (n + 1)))
      (rw (parse_digits-print (2 ^ width) (n + 1) h) (rw add-one refl))

-- An `i64` is read back from its print.
pub parse_i64-print_int : (z : ℤ) → IsI64 z → parse_i64 (print_int z) ≡ some z
unfolding print_int
parse_i64-print_int (pos n) h = parse_int-pos 63 n (omega arith)
parse_i64-print_int (negsuc n) h = parse_int-neg 63 n (omega arith)

-- The range of `i16`.
abbrev pub IsI16 : ℤ → Type 0
IsI16 z = (pos_part z < 2 ^ 15) × (neg_part z ≤ 2 ^ 15)

-- An `i16` is read back from its print.
pub parse_i16-print_int : (z : ℤ) → IsI16 z → parse_i16 (print_int z) ≡ some z
unfolding print_int
parse_i16-print_int (pos n) h = parse_int-pos 15 n (omega arith)
parse_i16-print_int (negsuc n) h = parse_int-neg 15 n (omega arith)

signed_test :
    (parse_i64 (codes "-9223372036854775808") ≡ some (negsuc 9223372036854775807))
    × (parse_i64 (codes "9223372036854775808") ≡ none)
    × (parse_i64 (codes "-0") ≡ some (pos 0))
    × (print_int (negsuc 41) ≡ codes "-42")
unfolding parse_int print_int
signed_test = (refl, refl, refl, refl)
