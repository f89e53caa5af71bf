-- ===== src/Manager/Stats/Tests.antt =====
-- Statistics of a group without controllers, and of its processors.
use cgroups_rs.Base.{◌≡◌, refl, [], ◌∷◌}
use cgroups_rs.Text.{codes}
use cgroups_rs.Text.Lines.{lines}
use cgroups_rs.Number.{parse_uint}
use cgroups_rs.Manager.Stats.{numbers_of_lines}

-- The kernel writes the time of each processor on one line, which is no number.
numbers_of_lines_test :
    (numbers_of_lines (lines (codes "12\n34\n")) ≡ 12 ∷ 34 ∷ [])
    × (numbers_of_lines (lines (codes "12 34 \n")) ≡ [])
unfolding numbers_of_lines lines parse_uint
numbers_of_lines_test = (refl, refl)
