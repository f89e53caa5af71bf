-- ===== src/Fs/Path/Parent.antt =====
-- A parent is a shorter path, so a walk up the parents ends.
use cgroups_rs.Base.{
  ℕ, ◌+◌, ◌≤◌, ◌<◌, ◌≡◌, refl, Bool, true, false, not, ◌&&◌, List, [], ◌∷◌, ◌++◌, some, arith, ◌==◌,
  if◌then◌else◌, is_empty, length, length-append, Bool-cases, inl, inr,
}
use cgroups_rs.Text.{Text}
use cgroups_rs.Text.Split.{split, split_by, push_front, length-split_pos}
use cgroups_rs.Fs.Host.{starts_with_slash}
use cgroups_rs.Fs.Path.{
  is_void, trim_pieces, init, join_slash, without_root, root_of, pieces, parent,
}

length-join_slash-push_front :
    (c : ℕ) (ws : List Text) → length (join_slash (push_front c ws)) ≡ length (join_slash ws) + 1
unfolding join_slash
length-join_slash-push_front c [] = refl
length-join_slash-push_front c (w ∷ []) = omega arith
length-join_slash-push_front c (w ∷ v ∷ ws) = omega (arith, length-append w, length-append (c ∷ w))

length-join_slash-split : (s : Text) → length (join_slash (split b'/' s)) ≡ length s
unfolding join_slash split_by
length-join_slash-split [] = refl
length-join_slash-split (c ∷ s) = ground (
  arith,
  length-join_slash-split s,
  length-join_slash-push_front c (split b'/' s),
  length-split_pos (λ d. d == b'/') s,
)

length-join_slash-cons :
    (w : Text) (ws : List Text)
    → length (join_slash (w ∷ ws))
      ≡ length w + (if is_empty ws then 0 else length (join_slash ws) + 1)
unfolding join_slash
length-join_slash-cons w [] = omega arith
length-join_slash-cons w (v ∷ ws) = omega (arith, length-append w (b'/' ∷ join_slash (v ∷ ws)))

le_of_cons :
    (w : Text) (rest ws : List Text)
    → (is_empty ws ≡ true → is_empty rest ≡ true)
    → length (join_slash rest) ≤ length (join_slash ws)
    → length (join_slash (w ∷ rest)) ≤ length (join_slash (w ∷ ws))
le_of_cons w rest ws e h =
    ground (arith, length-join_slash-cons w rest, length-join_slash-cons w ws)

trim_pieces_empty : (ws : List Text) → is_empty ws ≡ true → is_empty (trim_pieces false ws) ≡ true
unfolding trim_pieces
trim_pieces_empty [] h = refl
trim_pieces_empty (w ∷ ws) h = cc

-- Nothing longer is left by the trimming.
length-trim_pieces :
    (b : Bool) (ws : List Text) → length (join_slash (trim_pieces b ws)) ≤ length (join_slash ws)
unfolding trim_pieces join_slash
length-trim_pieces b [] = omega arith
length-trim_pieces b (w ∷ ws) = elim (Bool-cases (is_empty (trim_pieces false ws) && is_void b w)) [
  | inl e ↦ rw e (omega arith)
  | inr e ↦
      rw e (
        le_of_cons w (trim_pieces false ws) ws (trim_pieces_empty ws) (length-trim_pieces false ws))
]

-- The last component goes with at least one character.
length-init-cons :
    (w : Text) (ws : List Text)
    → (is_empty ws ≡ true → 0 < length w)
    → (is_empty ws ≡ false → length (join_slash (init ws)) < length (join_slash ws))
    → length (join_slash (init (w ∷ ws))) < length (join_slash (w ∷ ws))
unfolding init join_slash
length-init-cons w [] h ih = h refl
length-init-cons w (v ∷ ws) h ih =
    ground
      (arith, length-join_slash-cons w (init (v ∷ ws)), length-join_slash-cons w (v ∷ ws), ih refl)

length_pos_of_proper : (b : Bool) (w : Text) → is_void b w ≡ false → 0 < length w
length_pos_of_proper b [] h = cc
length_pos_of_proper b (c ∷ w) h = omega arith

length-init :
    (b : Bool) (ws : List Text)
    → is_empty (trim_pieces b ws) ≡ false
    → length (join_slash (init (trim_pieces b ws))) < length (join_slash (trim_pieces b ws))
unfolding trim_pieces
length-init b [] h = cc
length-init b (w ∷ ws) h = elim (Bool-cases (is_empty (trim_pieces false ws) && is_void b w)) [
  | inl e ↦ ground arith
  | inr e ↦ rw e (
      length-init-cons w (trim_pieces false ws) (λ k. length_pos_of_proper b w (ground arith))
        (length-init false ws))
]

length-root_of : (p : Text) → length p ≡ length (root_of p) + length (without_root p)
length-root_of [] = refl
length-root_of (c ∷ p) = ground arith

-- What `parent` gives of a path with a component.
abbrev above : Text → Text
above p = root_of p ++ join_slash (trim_pieces (not (starts_with_slash p)) (init (pieces p)))

length-above : (p : Text) → is_empty (pieces p) ≡ false → length (above p) < length p
length-above p e = omega (
  arith,
  length-append (root_of p)
      (join_slash (trim_pieces (not (starts_with_slash p)) (init (pieces p)))),
  length-trim_pieces (not (starts_with_slash p)) (init (pieces p)),
  length-init (not (starts_with_slash p)) (split b'/' (without_root p)) e,
  length-trim_pieces (not (starts_with_slash p)) (split b'/' (without_root p)),
  length-join_slash-split (without_root p),
  length-root_of p,
)

pub length-parent : (p q : Text) → parent p ≡ some q → length q < length p
unfolding parent
length-parent p q h = ground (arith, length-above p)
