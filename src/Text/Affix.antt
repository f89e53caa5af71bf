-- ===== src/Text/Affix.antt =====
-- `strip_suffix`, `trim_end_matches` of a text, `trim_start_matches` of a text, and the length in
-- bytes.
use mathlib.Core.List.{reverse, reverse-append, reverse-reverse}
use mathlib.Core.Option
use cgroups_rs.Base.{
  ℕ, zero, suc, ◌+◌, ◌<◌, ◌≡◌, refl, true, [], ◌∷◌, ◌++◌, Option, none, some, arith, ltb,
  if◌then◌else◌, length, ap,
}
use cgroups_rs.Text.{Text, text_eq_refl, strip_prefix, ends_with}

-- `str::len`: the bytes of UTF-8.
unfoldable pub byte_len : Text → ℕ
byte_len [] = 0
byte_len (c ∷ s) =
    (if ltb c 128 then 1 else if ltb c 2048 then 2 else if ltb c 65536 then 3 else 4) + byte_len s

unfoldable pub strip_suffix : Text → Text → Option Text
unfolding strip_prefix
strip_suffix pat s = Option.map reverse (strip_prefix (reverse pat) (reverse s))

-- `trim_end_matches(pat)`: the suffix goes as often as it is there. A pattern that is not empty is
-- there at most `length s` times.
trim_end_rounds : ℕ → Text → Text → Text
unfolding strip_suffix
trim_end_rounds zero pat s = s
trim_end_rounds (suc rounds) pat s = elim (strip_suffix pat s) [
  | none ↦ s
  | some rest ↦ trim_end_rounds rounds pat rest
]

unfoldable pub trim_end_text : Text → Text → Text
unfolding trim_end_rounds
trim_end_text pat s = trim_end_rounds (length s) pat s

-- `trim_start_matches(pat)`
trim_start_rounds : ℕ → Text → Text → Text
unfolding strip_prefix
trim_start_rounds zero pat s = s
trim_start_rounds (suc rounds) pat s = elim (strip_prefix pat s) [
  | none ↦ s
  | some rest ↦ trim_start_rounds rounds pat rest
]

unfoldable pub trim_start_text : Text → Text → Text
unfolding trim_start_rounds
trim_start_text pat s = trim_start_rounds (length s) pat s

pub strip_prefix-append : (p s : Text) → strip_prefix p (p ++ s) ≡ some s
unfolding strip_prefix
strip_prefix-append [] s = refl
strip_prefix-append (c ∷ p) s = ground (arith, strip_prefix-append p s)

pub strip_suffix-append : (pat s : Text) → strip_suffix pat (s ++ pat) ≡ some s
unfolding strip_suffix
strip_suffix-append pat s =
    rw (reverse-append s pat)
      (rw (strip_prefix-append (reverse pat) (reverse s)) (ap some (reverse-reverse s)))

-- One suffix that stands behind a text without it is all that is trimmed.
pub trim_end_text-append :
    (pat s : Text)
    → strip_suffix pat s ≡ none
    → 0 < length (s ++ pat)
    → trim_end_text pat (s ++ pat) ≡ s
unfolding trim_end_text
trim_end_text-append pat s h lt = go (length (s ++ pat)) lt
  where
    stop : (n : ℕ) → trim_end_rounds n pat s ≡ s
    stop zero = refl
    stop (suc n) = rw (h, trim_end_rounds) refl

    go : (n : ℕ) → 0 < n → trim_end_rounds n pat (s ++ pat) ≡ s
    go zero lt = elim lt [ ]
    go (suc n) lt = rw (strip_suffix-append pat s, trim_end_rounds) (stop n)

-- The suffix goes a second time, too.
pub trim_end_text_twice :
    (pat s : Text)
    → strip_suffix pat s ≡ none
    → 1 < length ((s ++ pat) ++ pat)
    → trim_end_text pat ((s ++ pat) ++ pat) ≡ s
unfolding trim_end_text
trim_end_text_twice pat s h lt = go (length ((s ++ pat) ++ pat)) lt
  where
    stop : (n : ℕ) → trim_end_rounds n pat s ≡ s
    stop zero = refl
    stop (suc n) = rw (h, trim_end_rounds) refl

    go : (n : ℕ) → 1 < n → trim_end_rounds n pat ((s ++ pat) ++ pat) ≡ s
    go zero lt = elim lt [ ]
    go (suc zero) lt = absurd (omega arith)
    go (suc (suc n)) lt =
        rw (strip_suffix-append pat (s ++ pat), trim_end_rounds)
          (rw (strip_suffix-append pat s, trim_end_rounds) (stop n))

ends_with_self : (pat : Text) → ends_with pat pat ≡ true
unfolding ends_with
ends_with_self [] = text_eq_refl []
ends_with_self (c ∷ pat) = ground (arith, text_eq_refl (c ∷ pat))

pub ends_with-append : (pat s : Text) → ends_with pat (s ++ pat) ≡ true
unfolding ends_with
ends_with-append pat [] = ends_with_self pat
ends_with-append pat (c ∷ s) = ground (arith, ends_with-append pat s)

pub byte_len-append : (s t : Text) → byte_len (s ++ t) ≡ byte_len s + byte_len t
unfolding byte_len
byte_len-append [] t = omega arith
byte_len-append (c ∷ s) t = ground (arith, byte_len-append s t)

-- One prefix in front of a text without it is all that is trimmed.
pub trim_start_text-append :
    (c : ℕ) (pat s : Text)
    → strip_prefix (c ∷ pat) s ≡ none
    → trim_start_text (c ∷ pat) ((c ∷ pat) ++ s) ≡ s
unfolding trim_start_text
trim_start_text-append c pat s h =
    rw (strip_prefix-append (c ∷ pat) s, trim_start_rounds) (stop (length (pat ++ s)))
  where
    stop : (n : ℕ) → trim_start_rounds n (c ∷ pat) s ≡ s
    stop zero = refl
    stop (suc n) = rw (h, trim_start_rounds) refl
