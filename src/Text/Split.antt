-- ===== src/Text/Split.antt =====
-- `split`, `split_once`, `splitn` and `split_whitespace`.
use cgroups_rs.Base.{
  ℕ, zero, suc, ◌-◌, ◌≤◌, ◌<◌, ◌≡◌, refl, Bool, true, false, ◌||◌, List, [], ◌∷◌, ◌++◌, Option,
  none, some, arith, ◌==◌, if◌then◌else◌, is_empty, length, All,
}
use cgroups_rs.Text.{Text, codes, strip_prefix, is_whitespace, contains_char}

-- A character in front of the first piece.
abbrev pub push_front : ℕ → List Text → List Text
push_front c [] = (c ∷ []) ∷ []
push_front c (w ∷ ws) = (c ∷ w) ∷ ws

-- `split` at each character that passes a test; there is always at least one piece.
unfoldable pub split_by : (ℕ → Bool) → Text → List Text
split_by p [] = [] ∷ []
split_by p (c ∷ s) = let rest = split_by p s in if p c then [] ∷ rest else push_front c rest

-- `split(c)` at a character.
abbrev pub split : ℕ → Text → List Text
split d = split_by (λ c. c == d)

-- `split([c, d])` at either of two characters.
abbrev pub split_either : ℕ → ℕ → Text → List Text
split_either d e = split_by (λ c. c == d || c == e)

-- `split(pat)` at a text: `skip` characters of the pattern just found are still to be passed over.
split_text_from : ℕ → Text → Text → List Text
split_text_from skip pat [] = [] ∷ []
split_text_from (suc skip) pat (c ∷ s) = split_text_from skip pat s
split_text_from zero pat (c ∷ s) =
    let found = split_text_from (length pat - 1) pat s in
    let other = split_text_from 0 pat s in
    elim (strip_prefix pat (c ∷ s)) [ some _ ↦ [] ∷ found | none ↦ push_front c other ]

unfoldable pub split_text : Text → Text → List Text
unfolding split_text_from strip_prefix
split_text pat s = split_text_from 0 pat s

abbrev after_char : ℕ → Option (Text × Text) → Option (Text × Text)
after_char c none = none
after_char c (some (a, b)) = some (c ∷ a, b)

-- `split_once(c)`
unfoldable pub split_once : ℕ → Text → Option (Text × Text)
split_once d [] = none
split_once d (c ∷ s) =
    let rest = split_once d s in if c == d then some ([], s) else after_char c rest

-- The pieces that hold a character.
abbrev non_empty : List Text → List Text
non_empty [] = []
non_empty (w ∷ ws) = if is_empty w then non_empty ws else w ∷ non_empty ws

unfoldable pub split_whitespace : Text → List Text
unfolding is_whitespace split_by
split_whitespace s = non_empty (split_by is_whitespace s)

-- No character of the text passes the test.
abbrev pub Free : (ℕ → Bool) → Text → Type 0
Free p = All (λ c. p c ≡ false)

-- A text with no separator is one piece.
pub split_by-Free : (p : ℕ → Bool) (w : Text) → Free p w → split_by p w ≡ w ∷ []
unfolding split_by
split_by-Free p [] _ = refl
split_by-Free p (c ∷ w) (hc, hw) = ground (arith, split_by-Free p w hw)

-- The first separator ends the first piece.
pub split_by-append :
    (p : ℕ → Bool) (w : Text) (d : ℕ) (rest : Text)
    → Free p w
    → p d ≡ true
    → split_by p (w ++ d ∷ rest) ≡ w ∷ split_by p rest
unfolding split_by
split_by-append p [] d rest _ hd = ground arith
split_by-append p (c ∷ w) d rest (hc, hw) hd = ground (arith, split_by-append p w d rest hw hd)

pub split_once-append :
    (d : ℕ) (w rest : Text) → Free (λ c. c == d) w → split_once d (w ++ d ∷ rest) ≡ some (w, rest)
unfolding split_once
split_once-append d [] rest _ = ground arith
split_once-append d (c ∷ w) rest (hc, hw) = ground (arith, split_once-append d w rest hw)

split_text_test :
    split_text (codes " - ") (codes "a b - c -  - ") ≡ codes "a b" ∷ codes "c" ∷ [] ∷ [] ∷ []
unfolding split_text
split_text_test = refl

split_whitespace_test :
    split_whitespace (codes " a  b\tc\n") ≡ codes "a" ∷ codes "b" ∷ codes "c" ∷ []
unfolding split_whitespace
split_whitespace_test = refl

-- A text without the character is one piece, and one with it is at least two.
pub contains_char-Free : (d : ℕ) (s : Text) → contains_char d s ≡ false → Free (λ c. c == d) s
unfolding contains_char
contains_char-Free d [] h = tt
contains_char-Free d (c ∷ s) h = (ground arith, contains_char-Free d s (ground arith))

length-push_front : (c : ℕ) (ws : List Text) → length ws ≤ length (push_front c ws)
length-push_front c [] = omega arith
length-push_front c (w ∷ ws) = omega arith

pub length-split_pos : (p : ℕ → Bool) (s : Text) → 0 < length (split_by p s)
unfolding split_by
length-split_pos p [] = omega arith
length-split_pos p (c ∷ s) =
    ground (arith, length-split_pos p s, length-push_front c (split_by p s))

pub one-lt-length-split : (d : ℕ) (s : Text) → contains_char d s ≡ true → 1 < length (split d s)
unfolding contains_char split_by
one-lt-length-split d [] h = cc
one-lt-length-split d (c ∷ s) h = ground (
  arith,
  length-split_pos (λ e. e == d) s,
  length-push_front c (split d s),
  one-lt-length-split d s,
)

pub Free-contains_char : (d : ℕ) (s : Text) → Free (λ c. c == d) s → contains_char d s ≡ false
unfolding contains_char
Free-contains_char d [] _ = refl
Free-contains_char d (c ∷ s) (h, hs) = ground (arith, Free-contains_char d s hs)
