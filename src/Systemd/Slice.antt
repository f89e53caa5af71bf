-- ===== src/Systemd/Slice.antt =====
-- systemd/utils.rs: names of slice and scope units, and the path of a slice in the file system.
pub mod Pieces
pub mod Path
mod Tests
use cgroups_rs.Base.{
  ℕ, ◌<◌, Bool, true, false, ◌||◌, ◌&&◌, not, List, [], ◌∷◌, ◌++◌, Result, ok, err, Outcome,
  returns, panics, ltb, ◌≡◌, refl, if◌then◌else◌, is_empty,
}
use cgroups_rs.Text.{Text, codes, text_eq, contains_char, ends_with}
use cgroups_rs.Text.Split.{split, split_by}
use cgroups_rs.Text.Affix.{byte_len, trim_end_text}
use cgroups_rs.Systemd.Error.{Error, SystemdResult, invalid_argument}

-- `SLICE_SUFFIX` and `SCOPE_SUFFIX` of systemd/mod.rs
abbrev pub slice_suffix : Text
slice_suffix = codes ".slice"

abbrev pub scope_suffix : Text
scope_suffix = codes ".scope"

unfoldable pub is_slice_unit : Text → Bool
unfolding ends_with
is_slice_unit name = ends_with slice_suffix name

unfoldable pub is_scope_unit : Text → Bool
unfolding ends_with
is_scope_unit name = ends_with scope_suffix name

-- The loop over the pieces of the name, with the path and the prefix so far.
pub expand_pieces : List Text → Text → Text → SystemdResult Text
expand_pieces [] slice_path prefix = ok slice_path
expand_pieces (sub_slice ∷ rest) slice_path prefix =
    if is_empty sub_slice
    then err invalid_argument
    else expand_pieces rest (slice_path ++ b'/' ∷ (prefix ++ (sub_slice ++ slice_suffix)))
        (prefix ++ (sub_slice ++ b'-' ∷ []))

-- `slice_path.remove(0)` panics on an empty text.
abbrev pub without_first : SystemdResult Text → Outcome (SystemdResult Text)
without_first (ok []) = panics
without_first (ok (c ∷ s)) = returns (ok s)
without_first (err e) = returns (err e)

unfoldable pub expand_slice : Text → Outcome (SystemdResult Text)
unfolding ends_with byte_len contains_char trim_end_text text_eq split_by expand_pieces
expand_slice slice =
    if not (ends_with slice_suffix slice) || ltb (byte_len slice) (byte_len slice_suffix)
    then returns (err invalid_argument)
    else if contains_char b'/' slice
    then returns (err invalid_argument)
    else (let name = trim_end_text slice_suffix slice in
        if text_eq name (codes "-")
        then returns (ok [])
        else without_first (expand_pieces (split b'-' name) [] []))

-- The source's own tests.
expand_slice_test :
    (expand_slice (codes "test-1-test-2.slice")
      ≡ returns (ok (codes "test.slice/test-1.slice/test-1-test.slice/test-1-test-2.slice")))
    × (expand_slice (codes "slice-slice.slice")
        ≡ returns (ok (codes "slice.slice/slice-slice.slice")))
    × (expand_slice (codes "-.slice") ≡ returns (ok []))
    × (expand_slice (codes "invalid/slice") ≡ returns (err invalid_argument))
    × (expand_slice (codes "invalid-slice") ≡ returns (err invalid_argument))
    × (expand_slice (codes ".slice") ≡ returns (err invalid_argument))
unfolding expand_slice
expand_slice_test = (refl, refl, refl, refl, refl, refl)
