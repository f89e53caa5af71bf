-- ===== src/Systemd/Props/Parent.antt =====
-- How a new unit names its parent.
use cgroups_rs.Base.{◌≡◌, refl, Bool, true, false, none, some, inl, inr, Bool-cases, if◌then◌else◌}
use cgroups_rs.Text.{Text, codes, text_eq}
use cgroups_rs.Dict.{Dict, get}
use cgroups_rs.Systemd.Slice.{is_slice_unit}
use cgroups_rs.Systemd.Props.{ZbusValues, default_cgroup, build}

-- The parent stands under one key, and the other key is not there; only a scope is delegated.
abbrev pub HasParent : (z : ZbusValues) → Text → Bool → Dict z.Value → Type 0
HasParent z slice is_slice props =
    (get (codes "Wants") props ≡ (if is_slice then some (z.str slice) else none))
    × (get (codes "Slice") props ≡ (if is_slice then none else some (z.str slice)))
    × (get (codes "Delegate") props ≡ (if is_slice then none else some (z.bool true)))

-- Accounting is on, for block I/O under the key of the host's version.
abbrev pub IsAccounted : (z : ZbusValues) → Bool → Dict z.Value → Type 0
IsAccounted z unified props =
    (get (codes "CPUAccounting") props ≡ some (z.bool true))
    × (get (codes "MemoryAccounting") props ≡ some (z.bool true))
    × (get (codes "TasksAccounting") props ≡ some (z.bool true))
    × (get (codes "IOAccounting") props ≡ (if unified then some (z.bool true) else none))
    × (get (codes "BlockIOAccounting") props ≡ (if unified then none else some (z.bool true)))

-- For each answer of the test on the name of the unit.
pub build-default_cgroup :
    (z : ZbusValues) (unified : Bool) (slice unit : Text)
    → HasParent z slice (is_slice_unit unit) (build z unified (default_cgroup slice unit))
      × IsAccounted z unified (build z unified (default_cgroup slice unit))
unfolding build default_cgroup get text_eq
build-default_cgroup z true slice unit = elim (Bool-cases (is_slice_unit unit)) [
  | inl e ↦ rw e ((refl, refl, refl), (refl, refl, refl, refl, refl))
  | inr e ↦ rw e ((refl, refl, refl), (refl, refl, refl, refl, refl))
]
build-default_cgroup z false slice unit = elim (Bool-cases (is_slice_unit unit)) [
  | inl e ↦ rw e ((refl, refl, refl), (refl, refl, refl, refl, refl))
  | inr e ↦ rw e ((refl, refl, refl), (refl, refl, refl, refl, refl))
]
