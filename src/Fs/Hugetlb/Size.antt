-- ===== src/Fs/Hugetlb/Size.antt =====
-- The text of a size: a number, a letter for the power of 1024, and maybe a `b`.
use mathlib.Core.List.{reverse-append}
use cgroups_rs.Base.{
  ℕ, ◌-◌, ◌*◌, ◌^◌, ◌<◌, ◌≡◌, refl, true, false, [], ◌∷◌, ◌++◌, none, some, arith, ◌==◌, ok,
  returns, All-append, All-map, append_assoc, is_empty, lt→ltb,
}
use cgroups_rs.Text.{Text, codes, contains_char, trim, is_whitespace}
use cgroups_rs.Text.Affix.{strip_suffix, strip_suffix-append}
use cgroups_rs.Text.Trim.{Visible, trim-Visible, graphic-Visible}
use cgroups_rs.Number.{IsDigit}
use cgroups_rs.Number.Print.{print, print-IsDigit, parse_uint-print}
use cgroups_rs.Dict.{Dict, get}
use cgroups_rs.Fs.Hugetlb.{split_last, size_of, without_b, parse_size}

-- Nothing, `b` or `B`.
pub data ByteSign : Text → Type 0 where
  no_sign : ByteSign []
  small : ByteSign (b'b' ∷ [])
  big : ByteSign (b'B' ∷ [])

abbrev letters : Text
letters = codes "kKmMgGtTpP"

split_last-append : (s : Text) (d : ℕ) → split_last (s ++ d ∷ []) ≡ some (s, d)
unfolding split_last
split_last-append [] d = refl
split_last-append (c ∷ s) d = rw (split_last-append s d, split_last) refl

strip_suffix_other :
    (c d : ℕ) (s : Text) → (c == d) ≡ false → strip_suffix (c ∷ []) (s ++ d ∷ []) ≡ none
unfolding strip_suffix
strip_suffix_other c d s h = rw (reverse-append s (d ∷ []), h) refl

is_not_b : (d : ℕ) → contains_char d letters ≡ true → ((b'b' == d) ≡ false) × ((b'B' == d) ≡ false)
unfolding contains_char
is_not_b d h = ground arith

letter-Visible : (d : ℕ) → contains_char d letters ≡ true → is_whitespace d ≡ false
unfolding contains_char
letter-Visible d h = graphic-Visible d (ground arith) (ground arith)

print-Visible : (n : ℕ) → (c : ℕ) × (s : Text) × (print n ≡ c ∷ s) × Visible (c ∷ s)
print-Visible n =
    let (c, s, e, d, ds) = print-IsDigit n in (c, s, e, (digit c d, All-map digit s ds))
  where
    digit : (c : ℕ) → IsDigit c → is_whitespace c ≡ false
    digit c (lo, hi) = graphic-Visible c (omega arith) (omega arith)

without_b_of :
    (s : Text) (d : ℕ) (sign : Text)
    → ByteSign sign
    → contains_char d letters ≡ true
    → without_b (s ++ d ∷ sign) ≡ s ++ d ∷ []
unfolding without_b
without_b_of s d sign no_sign h =
    rw (strip_suffix_other b'b' d s (is_not_b d h).0, strip_suffix_other b'B' d s (is_not_b d h).1)
      refl
without_b_of s d sign small h =
    rw (← append_assoc s (d ∷ []) (b'b' ∷ []), strip_suffix-append (b'b' ∷ []) (s ++ d ∷ [])) refl
without_b_of s d sign big h =
    rw
      (
        ← append_assoc s (d ∷ []) (b'B' ∷ []),
        strip_suffix_other b'b' b'B' (s ++ d ∷ []) refl,
        strip_suffix-append (b'B' ∷ []) (s ++ d ∷ []),
      )
      refl

sign-Visible : (sign : Text) → ByteSign sign → Visible sign
sign-Visible sign no_sign = tt
sign-Visible sign small = (graphic-Visible b'b' (omega arith) (omega arith), tt)
sign-Visible sign big = (graphic-Visible b'B' (omega arith) (omega arith), tt)

size-Visible :
    (n d : ℕ) (sign : Text)
    → ByteSign sign
    → contains_char d letters ≡ true
    → Visible (print n ++ d ∷ sign)
size-Visible n d sign b h =
    let (c, s, e, v) = print-Visible n in
    rw e (
      All-append (λ a. is_whitespace a ≡ false) (c ∷ s) (d ∷ sign) v
        (letter-Visible d h, sign-Visible sign b))

size_of-print :
    (n d multiplier : ℕ) (m : Dict ℕ)
    → contains_char d letters ≡ true
    → get (d ∷ []) m ≡ some multiplier
    → n < 2 ^ 128
    → n * multiplier < 2 ^ 128
    → size_of (some (print n, d)) m ≡ returns (ok (n * multiplier))
unfolding size_of
size_of-print n d multiplier m h g fits product =
    let (c, s, e, v) = print-Visible n in
    let trimmed : trim (print n) ≡ print n = rw e (trim-Visible (c ∷ s) v) in
    let full : is_empty (print n) ≡ false = rw e refl in
    rw
      (
        h,
        trimmed,
        full,
        parse_uint-print (2 ^ 128 - 1) n (omega (arith, fits)),
        g,
        lt→ltb (n * multiplier) (2 ^ 128) product,
      )
      refl

-- A number below 2^128, a letter of the table and nothing, `b` or `B` are read as the number times
-- the letter's factor, where the product is below 2^128.
pub parse_size-print :
    (n d multiplier : ℕ) (sign : Text) (m : Dict ℕ)
    → ByteSign sign
    → contains_char d letters ≡ true
    → get (d ∷ []) m ≡ some multiplier
    → n < 2 ^ 128
    → n * multiplier < 2 ^ 128
    → parse_size (print n ++ d ∷ sign) m ≡ returns (ok (n * multiplier))
unfolding parse_size
parse_size-print n d multiplier sign m b h g fits product =
    rw
      (
        trim-Visible (print n ++ d ∷ sign) (size-Visible n d sign b h),
        without_b_of (print n) d sign b h,
        split_last-append (print n) d,
      )
      (size_of-print n d multiplier m h g fits product)
