-- ===== src/Text.antt =====
-- Text of the standard library: a `str` is the list of its characters, each by its code point.
-- The functions of `str` that the program calls, with the laws that its round trips need.
pub mod Split
pub mod Lines
pub mod Affix
pub mod Trim
pub mod Words
use Prim.Native.Char.{code}
use cgroups_rs.Base.{
  ℕ, ◌≡◌, refl, ◌↔◌, Bool, true, false, ◌&&◌, ◌||◌, List, [], ◌∷◌, Option, none, some, arith,
  String, ◌==◌, ==_refl, leb, if◌then◌else◌, is_empty,
}

abbrev pub Text : Type 0
Text = List ℕ

-- The characters of a literal.
abbrev pub codes : String → Text
codes String.[] = []
codes (String.◌∷◌ c s) = code c ∷ codes s

-- `s == t`
unfoldable pub text_eq : Text → Text → Bool
text_eq [] [] = true
text_eq [] (d ∷ t) = false
text_eq (c ∷ s) [] = false
text_eq (c ∷ s) (d ∷ t) = c == d && text_eq s t

pub text_eq_refl : (s : Text) → text_eq s s ≡ true
unfolding text_eq
text_eq_refl [] = refl
text_eq_refl (c ∷ s) = ground (arith, ==_refl c, text_eq_refl s)

pub text_eq_sound : (s t : Text) → text_eq s t ≡ true → s ≡ t
unfolding text_eq
text_eq_sound [] [] h = refl
text_eq_sound [] (d ∷ t) h = cc
text_eq_sound (c ∷ s) [] h = cc
text_eq_sound (c ∷ s) (d ∷ t) h = ground (arith, text_eq_sound s t)

pub text_eq_iff : (s t : Text) → (text_eq s t ≡ true) ↔ (s ≡ t)
text_eq_iff s t = (text_eq_sound s t, λ e. rw e (text_eq_refl t))

-- `s.contains(c)`
unfoldable pub contains_char : ℕ → Text → Bool
contains_char d [] = false
contains_char d (c ∷ s) = c == d || contains_char d s

-- `keys.contains(&k)`, `contains_key` of a list of texts.
unfoldable pub contains_text : Text → List Text → Bool
contains_text k [] = false
contains_text k (t ∷ ts) = text_eq t k || contains_text k ts

-- `strip_prefix`
unfoldable pub strip_prefix : Text → Text → Option Text
strip_prefix [] s = some s
strip_prefix (p ∷ ps) [] = none
strip_prefix (p ∷ ps) (c ∷ s) = if p == c then strip_prefix ps s else none

-- `ends_with`: the pattern is what is left after some number of characters.
unfoldable pub ends_with : Text → Text → Bool
unfolding text_eq
ends_with pat [] = text_eq pat []
ends_with pat (c ∷ s) = text_eq pat (c ∷ s) || ends_with pat s

-- `char::is_whitespace`: the property `White_Space` of Unicode.
unfoldable pub is_whitespace : ℕ → Bool
is_whitespace c =
    (leb 9 c && leb c 13)
    || c == 32
    || c == 133
    || c == 160
    || c == 5760
    || (leb 8192 c && leb c 8202)
    || c == 8232
    || c == 8233
    || c == 8239
    || c == 8287
    || c == 12288

unfoldable pub trim_start : Text → Text
unfolding is_whitespace
trim_start [] = []
trim_start (c ∷ s) = let rest = trim_start s in if is_whitespace c then rest else c ∷ s

unfoldable pub trim_end : Text → Text
unfolding is_whitespace
trim_end [] = []
trim_end (c ∷ s) =
    let rest = trim_end s in if is_whitespace c && is_empty rest then [] else c ∷ rest

unfoldable pub trim : Text → Text
unfolding trim_start trim_end
trim s = trim_end (trim_start s)

-- `trim_start_matches(c)` for a character.
unfoldable pub trim_start_char : ℕ → Text → Text
trim_start_char d [] = []
trim_start_char d (c ∷ s) = let rest = trim_start_char d s in if c == d then rest else c ∷ s

trim_test : trim (codes " \t a b\r\n") ≡ codes "a b"
unfolding trim
trim_test = refl
