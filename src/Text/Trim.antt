-- ===== src/Text/Trim.antt =====
-- `trim` of a text without white space, and of one behind which a line feed stands.
use cgroups_rs.Base.{
  ℕ, ◌≤◌, ◌≡◌, refl, Bool, true, false, ◌&&◌, is_empty, ◌∙◌, [], ◌∷◌, ◌++◌, arith, ◌==◌, ap,
  append_assoc,
}
use cgroups_rs.Text.{Text, is_whitespace, trim_start, trim_end, trim}
use cgroups_rs.Text.Split.{Free}

abbrev pub Visible : Text → Type 0
Visible = Free is_whitespace

-- The characters from `!` to `~` are no white space.
pub graphic-Visible : (c : ℕ) → 33 ≤ c → c ≤ 126 → is_whitespace c ≡ false
unfolding is_whitespace
graphic-Visible c h k = ground arith

pub Visible-no_space : (w : Text) → Visible w → Free (λ c. c == b' ') w
unfolding is_whitespace
Visible-no_space [] _ = tt
Visible-no_space (c ∷ w) (hc, hw) = (ground arith, Visible-no_space w hw)

trim_end-Visible : (w : Text) → Visible w → trim_end w ≡ w
unfolding trim_end
trim_end-Visible [] _ = refl
trim_end-Visible (c ∷ w) (hc, hw) = rw hc (ap (λ t. c ∷ t) (trim_end-Visible w hw))

trim_end-feed : (w : Text) → Visible w → trim_end (w ++ b'\n' ∷ []) ≡ w
unfolding trim_end is_whitespace
trim_end-feed [] _ = refl
trim_end-feed (c ∷ w) (hc, hw) = rw hc (ap (λ t. c ∷ t) (trim_end-feed w hw))

trim_end-append :
    (a b : Text) (d : ℕ) (t : Text) → trim_end b ≡ d ∷ t → trim_end (a ++ b) ≡ a ++ d ∷ t
unfolding trim_end
trim_end-append [] b d t h = h
trim_end-append (c ∷ []) b d t h = ground (arith, h)
trim_end-append (c ∷ e ∷ a) b d t h = ground (arith, trim_end-append (e ∷ a) b d t h)

trim_start-visible : (c : ℕ) (s : Text) → is_whitespace c ≡ false → trim_start (c ∷ s) ≡ c ∷ s
unfolding trim_start
trim_start-visible c s h = rw h refl

pub trim-Visible : (w : Text) → Visible w → trim w ≡ w
unfolding trim trim_start trim_end
trim-Visible [] _ = refl
trim-Visible (c ∷ w) (hc, hw) = rw (trim_start-visible c w hc) (trim_end-Visible (c ∷ w) (hc, hw))

-- Two words and a line feed.
pub trim-words :
    (c : ℕ) (a : Text) (d : ℕ) (b : Text)
    → Visible (c ∷ a)
    → Visible (d ∷ b)
    → trim (((c ∷ a) ++ b' ' ∷ d ∷ b) ++ b'\n' ∷ []) ≡ (c ∷ a) ++ b' ' ∷ d ∷ b
unfolding trim
trim-words c a d b ha hb = rw (trim_start-visible c ((a ++ b' ' ∷ d ∷ b) ++ b'\n' ∷ []) ha.0) (
    rw (append_assoc a (b' ' ∷ d ∷ b) (b'\n' ∷ [])) (
      trim_end-append (c ∷ a) (b' ' ∷ d ∷ b ++ b'\n' ∷ []) b' ' (d ∷ b)
        (trim_end-append (b' ' ∷ []) (d ∷ b ++ b'\n' ∷ []) d b (trim_end-feed (d ∷ b) hb))))

-- A word and a line feed.
pub trim-word : (c : ℕ) (w : Text) → Visible (c ∷ w) → trim ((c ∷ w) ++ b'\n' ∷ []) ≡ c ∷ w
unfolding trim
trim-word c w h = rw (trim_start-visible c (w ++ b'\n' ∷ []) h.0) (trim_end-feed (c ∷ w) h)

-- Every character is white space.
abbrev pub all_white : Text → Bool
all_white [] = true
all_white (c ∷ s) = is_whitespace c && all_white s

is_empty-trim_end : (s : Text) → is_empty (trim_end s) ≡ all_white s
unfolding trim_end
is_empty-trim_end [] = refl
is_empty-trim_end (c ∷ s) = ground (arith, is_empty-trim_end s)

all_white-trim_end : (s : Text) → all_white (trim_end s) ≡ all_white s
unfolding trim_end
all_white-trim_end [] = refl
all_white-trim_end (c ∷ s) = ground (arith, all_white-trim_end s, is_empty-trim_end s)

all_white-trim_start : (s : Text) → all_white (trim_start s) ≡ all_white s
unfolding trim_start
all_white-trim_start [] = refl
all_white-trim_start (c ∷ s) = ground (arith, all_white-trim_start s)

pub is_empty-trim : (s : Text) → is_empty (trim s) ≡ all_white s
unfolding trim
is_empty-trim s = is_empty-trim_end (trim_start s) ∙ all_white-trim_start s

pub all_white-trim : (s : Text) → all_white (trim s) ≡ all_white s
unfolding trim
all_white-trim s = all_white-trim_end (trim_start s) ∙ all_white-trim_start s

-- White space behind a text that is not all white does not make it blank.
pub all_white-append : (s t : Text) → all_white s ≡ false → all_white (s ++ t) ≡ false
all_white-append [] t h = cc
all_white-append (c ∷ s) t h = ground (arith, all_white-append s t)
