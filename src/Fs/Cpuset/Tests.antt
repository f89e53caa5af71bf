-- ===== src/Fs/Cpuset/Tests.antt =====
-- The list format at a concrete list.
use cgroups_rs.Base.{ℕ, ◌≡◌, refl, List, [], ◌∷◌, ok, err, arith}
use cgroups_rs.Text.{codes}
use cgroups_rs.Fs.Error.{new, parse_error}
use cgroups_rs.Fs.Cpuset.{parse_range}
use cgroups_rs.Fs.Cpuset.Ranges.{list_text, parse_range-list_text}

abbrev cpus : List (ℕ × ℕ)
cpus = (1, 1) ∷ (4, 5) ∷ []

parse_range-list_text_example : parse_range (list_text cpus) ≡ ok cpus
parse_range-list_text_example =
    parse_range-list_text cpus ((omega arith, omega arith), ((omega arith, omega arith), tt))

parse_range_test :
    (parse_range (codes "1,2,4-5,8") ≡ ok ((1, 1) ∷ (2, 2) ∷ (4, 5) ∷ (8, 8) ∷ []))
    × (parse_range (codes "1-2-3") ≡ err (new parse_error))
unfolding parse_range
parse_range_test = (refl, refl)
