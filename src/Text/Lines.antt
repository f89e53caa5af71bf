-- ===== src/Text/Lines.antt =====
-- `lines`: pieces between line feeds; a carriage return before a line feed goes with it, and no
-- line stands behind a final line feed.
use cgroups_rs.Base.{
  ℕ, Bool, ◌||◌, ◌++◌, All, arith, ◌≡◌, refl, ◌&&◌, List, [], ◌∷◌, ◌==◌, if◌then◌else◌, is_empty,
}
use cgroups_rs.Text.{Text, codes}
use cgroups_rs.Text.Split.{split, split_by, split_by-append, Free}

-- `strip_suffix('\r')`, or the line itself.
unfoldable pub strip_cr : Text → Text
strip_cr [] = []
strip_cr (c ∷ s) = if c == b'\r' && is_empty s then [] else c ∷ strip_cr s

lines_of : List Text → List Text
unfolding strip_cr
lines_of [] = []
lines_of (w ∷ []) = if is_empty w then [] else w ∷ []
lines_of (w ∷ v ∷ rest) = strip_cr w ∷ lines_of (v ∷ rest)

unfoldable pub lines : Text → List Text
unfolding lines_of split_by
lines s = lines_of (split b'\n' s)

lines_test : lines (codes "a\r\nb\n\nc") ≡ codes "a" ∷ codes "b" ∷ [] ∷ codes "c" ∷ []
unfolding lines
lines_test = refl

-- The lines, each with its line feed.
unfoldable pub unlines : List Text → Text
unlines [] = []
unlines (w ∷ ws) = w ++ b'\n' ∷ unlines ws

-- No line feed and no carriage return.
abbrev pub is_break : ℕ → Bool
is_break c = c == b'\n' || c == b'\r'

strip_cr-Free : (w : Text) → Free is_break w → strip_cr w ≡ w
unfolding strip_cr
strip_cr-Free [] _ = refl
strip_cr-Free (c ∷ w) (hc, hw) = ground (arith, strip_cr-Free w hw)

feed-Free : (w : Text) → Free is_break w → Free (λ c. c == b'\n') w
feed-Free [] _ = tt
feed-Free (c ∷ w) (hc, hw) = (ground arith, feed-Free w hw)

split-unlines : (ws : List Text) → All (Free is_break) ws → split b'\n' (unlines ws) ≡ ws ++ [] ∷ []
unfolding unlines split_by
split-unlines [] _ = refl
split-unlines (w ∷ ws) (hw, hws) =
    rw (split_by-append (λ c. c == b'\n') w b'\n' (unlines ws) (feed-Free w hw) refl)
      (rw (split-unlines ws hws))

lines_of-snoc : (ws : List Text) → All (Free is_break) ws → lines_of (ws ++ [] ∷ []) ≡ ws
unfolding lines_of
lines_of-snoc [] _ = refl
lines_of-snoc (w ∷ []) (hw, _) = rw (strip_cr-Free w hw)
lines_of-snoc (w ∷ v ∷ ws) (hw, hws) = rw (strip_cr-Free w hw) (rw (lines_of-snoc (v ∷ ws) hws))

-- Lines with no break inside are read back from the text that ends each with a line feed.
pub lines-unlines : (ws : List Text) → All (Free is_break) ws → lines (unlines ws) ≡ ws
unfolding lines
lines-unlines ws h = rw (split-unlines ws h) (lines_of-snoc ws h)
