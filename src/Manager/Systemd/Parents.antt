-- ===== src/Manager/Systemd/Parents.antt =====
-- How the unit that a path names gets its parent: from the text of the path to the properties of the
-- new unit.
use cgroups_rs.Base.{ℕ, [], ◌∷◌, if◌then◌else◌, is_empty}
use cgroups_rs.Text.{Text}
use cgroups_rs.Manager.Systemd.{default_slice}

abbrev second : Text → ℕ
second [] = 0
second (c ∷ []) = 0
second (c ∷ d ∷ s) = d

-- The slice that a path without one stands for.
abbrev pub slice_or_default : Text → Text
slice_or_default slice = if is_empty slice then default_slice else slice
