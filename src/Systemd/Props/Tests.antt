-- ===== src/Systemd/Props/Tests.antt =====
-- The properties of a scope.
use cgroups_rs.Base.{Bool, if◌then◌else◌, ◌≡◌, refl, true, false, [], ◌∷◌}
use cgroups_rs.Text.{Text, codes}
use cgroups_rs.Systemd.Props.{ZbusValues, default_cgroup, build}

abbrev words : Bool → Text
words b = if b then codes "yes" else codes "no"

-- Values shown as text.
abbrev texts : ZbusValues
texts = record { Value = Text; bool = words; str = λ t. t; uint64 = λ n. []; array = λ ns. [] }

build_test :
    build texts false (default_cgroup (codes "a.slice") (codes "b.slice"))
    ≡ (codes "CPUAccounting", words true)
      ∷ (codes "MemoryAccounting", words true)
      ∷ (codes "TasksAccounting", words true)
      ∷ (codes "BlockIOAccounting", words true)
      ∷ (codes "DefaultDependencies", words false)
      ∷ (codes "Description", codes "cgroups-rs transient unit a.slice:b.slice")
      ∷ (codes "Wants", codes "a.slice")
      ∷ []
unfolding build default_cgroup
build_test = refl
