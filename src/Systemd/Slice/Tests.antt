-- ===== src/Systemd/Slice/Tests.antt =====
-- The theorems on slice names at concrete names.
use cgroups_rs.Base.{◌≡◌, ◌≢◌, refl, List, [], ◌∷◌, ◌++◌, map, none, ok, returns, panics}
use cgroups_rs.Text.{Text, codes}
use cgroups_rs.Text.Affix.{strip_suffix}
use cgroups_rs.Systemd.Slice.{slice_suffix, expand_slice}
use cgroups_rs.Systemd.Slice.Pieces.{join, starts, slice_of}
use cgroups_rs.Systemd.Slice.Path.{
  expand_slice-slice_of, expand_slice-ne-panics, expand_slice_twice,
}

abbrev parts : List Text
parts = codes "b" ∷ []

no_suffix : strip_suffix slice_suffix (join b'-' (codes "a" ∷ parts)) ≡ none
unfolding strip_suffix
no_suffix = refl

expand_slice-slice_of_example :
    expand_slice (slice_of (codes "a" ∷ parts))
    ≡ returns (ok (join b'/' (map slice_of (starts (codes "a" ∷ parts)))))
expand_slice-slice_of_example =
    expand_slice-slice_of (codes "a") parts ((refl, (refl, tt)), ((refl, (refl, tt)), tt)) no_suffix

slices_of_test : join b'/' (map slice_of (starts (codes "a" ∷ parts))) ≡ codes "a.slice/a-b.slice"
slices_of_test = refl

expand_slice-ne-panics_example : expand_slice (codes ".slice") ≢ panics
expand_slice-ne-panics_example = expand_slice-ne-panics (codes ".slice")

expand_slice_twice_example :
    expand_slice (slice_of (codes "a" ∷ parts) ++ slice_suffix)
    ≡ expand_slice (slice_of (codes "a" ∷ parts))
expand_slice_twice_example =
    expand_slice_twice (codes "a") parts ((refl, (refl, tt)), ((refl, (refl, tt)), tt)) no_suffix
