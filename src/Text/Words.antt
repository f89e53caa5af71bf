-- ===== src/Text/Words.antt =====
-- The words of a line: `split_whitespace` on visible words with spaces between them.
use cgroups_rs.Base.{
  ◌≡◌, refl, Bool, true, false, not, ◌&&◌, [], ◌∷◌, ◌++◌, arith, ◌==◌, leb, is_empty,
}
use cgroups_rs.Text.{Text, is_whitespace}
use cgroups_rs.Text.Lines.{is_break}
use cgroups_rs.Text.Split.{Free, split_by-Free, split_by-append, split_whitespace}
use cgroups_rs.Text.Trim.{Visible}

-- Every character stands between `!` and `~` and is no colon.
unfoldable pub is_plain : Text → Bool
is_plain [] = true
is_plain (c ∷ s) = leb 33 c && leb c 126 && not (c == b':') && is_plain s

pub plain-Visible : (s : Text) → is_plain s ≡ true → Visible s
unfolding is_plain is_whitespace
plain-Visible [] h = tt
plain-Visible (c ∷ s) h = (ground (arith, h), plain-Visible s (ground (arith, h)))

pub plain-no_colon : (s : Text) → is_plain s ≡ true → Free (λ c. c == b':') s
unfolding is_plain
plain-no_colon [] h = tt
plain-no_colon (c ∷ s) h = (ground (arith, h), plain-no_colon s (ground (arith, h)))

pub plain-no_break : (s : Text) → is_plain s ≡ true → Free is_break s
unfolding is_plain
plain-no_break [] h = tt
plain-no_break (c ∷ s) h = (ground (arith, h), plain-no_break s (ground (arith, h)))

abbrev pub IsWord : Text → Type 0
IsWord w = (is_empty w ≡ false) × Visible w

pub split_whitespace-two :
    (a b : Text) → IsWord a → IsWord b → split_whitespace (a ++ b' ' ∷ b) ≡ a ∷ b ∷ []
unfolding split_whitespace is_whitespace
split_whitespace-two a b (ha, va) (hb, vb) =
    rw (split_by-append is_whitespace a b' ' b va refl, split_by-Free is_whitespace b vb, ha, hb)
      refl

pub split_whitespace-three :
    (a b c : Text)
    → IsWord a
    → IsWord b
    → IsWord c
    → split_whitespace (a ++ b' ' ∷ (b ++ b' ' ∷ c)) ≡ a ∷ b ∷ c ∷ []
unfolding split_whitespace is_whitespace
split_whitespace-three a b c (ha, va) (hb, vb) (hc, vc) =
    rw
      (
        split_by-append is_whitespace a b' ' (b ++ b' ' ∷ c) va refl,
        split_by-append is_whitespace b b' ' c vb refl,
        split_by-Free is_whitespace c vc,
        ha,
        hb,
        hc,
      )
      refl
