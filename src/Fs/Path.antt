-- ===== src/Fs/Path.antt =====
-- `std::path`: the parent and the components of a path, on which fs/cpuset.rs walks up the
-- directories and by which paths are compared.
pub mod Parent
use cgroups_rs.Base.{
  ◌≡◌, refl, Bool, true, false, not, ◌&&◌, ◌||◌, List, [], ◌∷◌, ◌++◌, Option, none, some,
  if◌then◌else◌, is_empty, ◌==◌,
}
use cgroups_rs.Text.{Text, codes, text_eq}
use cgroups_rs.Text.Split.{split, split_by}
use cgroups_rs.Fs.Host.{starts_with_slash}

-- A piece between slashes that is no component. A dot is one at the start of a relative path.
abbrev pub is_void : Bool → Text → Bool
is_void at_start w = is_empty w || (text_eq w (codes ".") && not at_start)

-- The pieces without those at the end that are no component.
unfoldable pub trim_pieces : Bool → List Text → List Text
unfolding text_eq
trim_pieces at_start [] = []
trim_pieces at_start (w ∷ ws) =
    let rest = trim_pieces false ws in if is_empty rest && is_void at_start w then [] else w ∷ rest

-- All but the last.
unfoldable pub init : List Text → List Text
init [] = []
init (w ∷ ws) = let rest = init ws in if is_empty ws then [] else w ∷ rest

unfoldable pub join_slash : List Text → Text
join_slash [] = []
join_slash (w ∷ ws) = let rest = join_slash ws in if is_empty ws then w else w ++ b'/' ∷ rest

abbrev pub without_root : Text → Text
without_root [] = []
without_root (c ∷ s) = if c == b'/' then s else c ∷ s

abbrev pub root_of : Text → Text
root_of p = if starts_with_slash p then codes "/" else []

-- The pieces behind the root up to the last component.
abbrev pub pieces : Text → List Text
pieces p = trim_pieces (not (starts_with_slash p)) (split b'/' (without_root p))

-- `Path::parent`
unfoldable pub parent : Text → Option Text
unfolding trim_pieces init join_slash split_by
parent p =
    if is_empty (pieces p)
    then none
    else some (root_of p ++ join_slash (trim_pieces (not (starts_with_slash p)) (init (pieces p))))

-- The pieces that are components.
abbrev proper : Bool → List Text → List Text
proper at_start [] = []
proper at_start (w ∷ ws) = if is_void at_start w then proper false ws else w ∷ proper false ws

abbrev texts_eq : List Text → List Text → Bool
texts_eq [] [] = true
texts_eq (s ∷ ss) (t ∷ ts) = text_eq s t && texts_eq ss ts
texts_eq _ _ = false

-- `==` of paths: the same components.
unfoldable pub path_eq : Text → Text → Bool
unfolding text_eq split_by
path_eq p q =
    text_eq (root_of p) (root_of q)
    && texts_eq (proper (not (starts_with_slash p)) (split b'/' (without_root p)))
        (proper (not (starts_with_slash q)) (split b'/' (without_root q)))

parent_test : parent (codes "/a//b/./") ≡ some (codes "/a")
unfolding parent
parent_test = refl

parent_relative_test : parent (codes "a") ≡ some []
unfolding parent
parent_relative_test = refl

parent_root_test : parent (codes "//") ≡ none
unfolding parent
parent_root_test = refl

path_eq_test : path_eq (codes "/a/./b/") (codes "/a//b") ≡ true
unfolding path_eq
path_eq_test = refl
