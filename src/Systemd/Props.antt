-- ===== src/Systemd/Props.antt =====
-- systemd/props.rs and systemd/consts.rs: the properties of a transient unit. Whether the host runs
-- the unified hierarchy is an argument of `build`.
pub mod Parent
mod Tests
use cgroups_rs.Base.{ℕ, Bool, true, false, List, [], ◌∷◌, ◌++◌, Option, none, some, if◌then◌else◌}
use cgroups_rs.Text.{Text, codes}
use cgroups_rs.Dict.{Dict}
use cgroups_rs.Systemd.Slice.{is_slice_unit}

-- The values of the D-Bus library, with the four constructors that the properties use.
pub record ZbusValues : Type 1 where
  pub Value : Type 0
  pub bool : Bool → Value
  pub str : Text → Value
  pub uint64 : ℕ → Value
  pub array : List ℕ → Value

pub record PropertiesBuilder : Type 0 where
  pub cpu_accounting : Option Bool
  pub memory_accounting : Option Bool
  pub task_accounting : Option Bool
  pub io_accounting : Option Bool
  pub default_dependencies : Option Bool
  pub description : Option Text
  pub wants : Option Text
  pub slice : Option Text
  pub delegate : Option Bool
  pub pids : Option (List ℕ)
  pub timeout_stop_usec : Option ℕ

abbrev pub default_builder : PropertiesBuilder
default_builder = record {
  cpu_accounting = none;
  memory_accounting = none;
  task_accounting = none;
  io_accounting = none;
  default_dependencies = none;
  description = none;
  wants = none;
  slice = none;
  delegate = none;
  pids = none;
  timeout_stop_usec = none;
}

abbrev pub default_description : Text
default_description = codes "cgroups-rs transient unit"

-- The setters that are called on the default builder for every unit.
abbrev accounted : Text → Text → PropertiesBuilder
accounted slice unit = record default_builder {
  cpu_accounting = some true;
  memory_accounting = some true;
  task_accounting = some true;
  io_accounting = some true;
  default_dependencies = some false;
  description = some (default_description ++ b' ' ∷ (slice ++ b':' ∷ unit));
}

unfoldable pub default_cgroup : Text → Text → PropertiesBuilder
unfolding is_slice_unit
default_cgroup slice unit =
    if is_slice_unit unit
    then record (accounted slice unit) { wants = some slice }
    else record (accounted slice unit) { slice = some slice; delegate = some true }

module _ (z : ZbusValues) where
  open z use {Value, bool, str, uint64, array}

  -- `if let Some(v) = o { props.push((key, f(v))) }`
  abbrev pushed : {A : Type 0} → Text → (A → Value) → Option A → Dict Value
  pushed key f none = []
  pushed key f (some a) = (key, f a) ∷ []

  abbrev described : Option Text → Dict Value
  described none = (codes "Description", str default_description) ∷ []
  described (some d) = (codes "Description", str d) ∷ []

  unfoldable pub build : Bool → PropertiesBuilder → Dict Value
  build unified b =
      pushed (codes "CPUAccounting") bool b.cpu_accounting
      ++ (pushed (codes "MemoryAccounting") bool b.memory_accounting
          ++ (pushed (codes "TasksAccounting") bool b.task_accounting
              ++ (pushed (if unified then codes "IOAccounting" else codes "BlockIOAccounting") bool
                    b.io_accounting
                  ++ (pushed (codes "DefaultDependencies") bool b.default_dependencies
                      ++ (described b.description
                          ++ (pushed (codes "Wants") str b.wants
                              ++ (pushed (codes "Slice") str b.slice
                                  ++ (pushed (codes "Delegate") bool b.delegate
                                      ++ (pushed (codes "PIDs") array b.pids
                                          ++ pushed (codes "TimeoutStopUSec") uint64
                                              b.timeout_stop_usec)))))))))
