-- ===== src/Fs/Builder.antt =====
-- fs/cgroup_builder.rs: a group with its resources, put together step by step.
pub mod Limits
pub mod Lists
mod Tests
use cgroups_rs.Base.{ℕ, List, [], Option, none, some}
use cgroups_rs.Text.{Text}
use cgroups_rs.Io.{Io, ◌>>=◌, ◌>>◌, pure}
use cgroups_rs.Fs.Error.{Error}
use cgroups_rs.Fs.Host.{Host}
use cgroups_rs.Fs.Directories.{Directories}
use cgroups_rs.Fs.Hierarchies.{Hierarchy}
use cgroups_rs.Fs.Cgroup.{Cgroup}
use cgroups_rs.Fs.Cgroup.Create.{new_cgroup, new_with_specified_controllers}
use cgroups_rs.Fs.Cgroup.Apply.{Resources, apply}

pub record CgroupBuilder : Type 0 where
  pub name : Text
  pub resources : Resources
  pub specified_controllers : Option (List Text)

-- `Resources::default()`
abbrev pub default_resources : Resources
default_resources = record {
  memory = record {
    kernel_memory_limit = none;
    memory_hard_limit = none;
    memory_soft_limit = none;
    kernel_tcp_memory_limit = none;
    memory_swap_limit = none;
    swappiness = none;
    attrs = [];
  };
  pid = record { maximum_number_of_processes = none };
  cpu = record {
    cpus = none;
    mems = none;
    shares = none;
    quota = none;
    period = none;
    realtime_runtime = none;
    realtime_period = none;
    attrs = [];
  };
  devices = [];
  network = record { class_id = none; priorities = [] };
  hugepages = record { limits = [] };
  blkio = record {
    weight = none;
    leaf_weight = none;
    weight_device = [];
    throttle_read_bps_device = [];
    throttle_read_iops_device = [];
    throttle_write_bps_device = [];
    throttle_write_iops_device = [];
    attrs = [];
  };
}

unfoldable pub new : Text → CgroupBuilder
new name = record { name = name; resources = default_resources; specified_controllers = none }

unfoldable pub set_specified_controllers : List Text → CgroupBuilder → CgroupBuilder
set_specified_controllers names b = record b { specified_controllers = some names }

module _ (h : Host) (d : Directories h) (sizes : List Text) where
  open h use {State}

  abbrev applied : Resources → Io State Error Cgroup → Io State Error Cgroup
  applied res made = made >>= λ g. apply h g res >> pure g

  unfoldable pub build : Hierarchy → CgroupBuilder → Io State Error Cgroup
  unfolding new_cgroup new_with_specified_controllers apply
  build hier b = elim b.specified_controllers [
    | some names ↦
        applied b.resources (new_with_specified_controllers h d sizes hier b.name (some names))
    | none ↦ applied b.resources (new_cgroup h d sizes hier b.name)
  ]
