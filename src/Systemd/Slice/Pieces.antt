-- ===== src/Systemd/Slice/Pieces.antt =====
-- The loop over the pieces of a slice name: the slice units of its ancestors.
use cgroups_rs.Base.{
  ℕ, ◌≡◌, refl, sym, ap, false, ◌||◌, List, [], ◌∷◌, ◌++◌, map, ok, ◌==◌, is_empty, All, append-nil,
  append_assoc,
}
use mathlib.Core.Path.{ap₂}
use cgroups_rs.Text.{Text}
use cgroups_rs.Text.Split.{Free}
use cgroups_rs.Systemd.Slice.{slice_suffix, expand_pieces}

-- Texts between separators.
abbrev pub join : ℕ → List Text → Text
join sep [] = []
join sep (p ∷ []) = p
join sep (p ∷ q ∷ ps) = p ++ sep ∷ join sep (q ∷ ps)

-- The lists of the first one, two, … items.
abbrev pub starts {ℓ} : {A : Type ℓ} → List A → List (List A)
starts [] = []
starts (x ∷ xs) = (x ∷ []) ∷ map (λ ys. x ∷ ys) (starts xs)

-- The slice unit of a list of name parts.
abbrev pub slice_of : List Text → Text
slice_of ps = join b'-' ps ++ slice_suffix

-- A part of a name: some characters, none a dash or a path separator.
abbrev pub IsPart : Text → Type 0
IsPart p = (is_empty p ≡ false) × Free (λ c. c == b'-' || c == b'/') p

-- What the loop appends for the parts behind a prefix.
abbrev pub behind : Text → List Text → Text
behind prefix [] = []
behind prefix (p ∷ ps) =
    b'/' ∷ (prefix ++ (p ++ slice_suffix)) ++ behind (prefix ++ (p ++ b'-' ∷ [])) ps

pub expand_pieces-behind :
    (ps : List Text) (path prefix : Text)
    → All IsPart ps
    → expand_pieces ps path prefix ≡ ok (path ++ behind prefix ps)
unfolding expand_pieces
expand_pieces-behind [] path prefix _ = rw append-nil
expand_pieces-behind (p ∷ ps) path prefix ((ne, _), hs) =
    rw ne (rw (expand_pieces-behind ps _ _ hs) (rw append_assoc))

abbrev IsFilled : List Text → Type 0
IsFilled ys = is_empty ys ≡ false

-- One part more in front is a longer prefix.
slice_of-cons :
    (prefix p : Text) (ys : List Text)
    → IsFilled ys
    → prefix ++ slice_of (p ∷ ys) ≡ (prefix ++ (p ++ b'-' ∷ [])) ++ slice_of ys
slice_of-cons prefix p [] h = cc
slice_of-cons prefix p (y ∷ ys) h = simp append_assoc

map-slice_of :
    (prefix p : Text) (yss : List (List Text))
    → All IsFilled yss
    → map (λ ys. prefix ++ slice_of ys) (map (λ ys. p ∷ ys) yss)
      ≡ map (λ ys. (prefix ++ (p ++ b'-' ∷ [])) ++ slice_of ys) yss
map-slice_of prefix p [] _ = refl
map-slice_of prefix p (ys ∷ yss) (h, hs) =
    ap₂ ◌∷◌ (slice_of-cons prefix p ys h) (map-slice_of prefix p yss hs)

starts-IsFilled : (ps : List Text) → All IsFilled (starts ps)
starts-IsFilled [] = tt
starts-IsFilled (p ∷ ps) = (refl, go (starts ps))
  where
    go : (yss : List (List Text)) → All IsFilled (map (λ ys. p ∷ ys) yss)
    go [] = tt
    go (ys ∷ yss) = (refl, go yss)

pub behind-join :
    (prefix p : Text) (ps : List Text)
    → behind prefix (p ∷ ps)
      ≡ b'/' ∷ join b'/' (map (λ ys. prefix ++ slice_of ys) (starts (p ∷ ps)))
behind-join prefix p [] = rw append-nil
behind-join prefix p (q ∷ ps) = rw (behind-join (prefix ++ (p ++ b'-' ∷ [])) q ps) (
    ap (λ (rest : List Text). b'/' ∷ ((prefix ++ (p ++ slice_suffix)) ++ b'/' ∷ join b'/' rest))
      (sym (map-slice_of prefix p (starts (q ∷ ps)) (starts-IsFilled (q ∷ ps)))))
