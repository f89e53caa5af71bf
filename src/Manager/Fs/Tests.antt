-- ===== src/Manager/Fs/Tests.antt =====
-- The manager on a kernel that keeps its files by their paths.
use cgroups_rs.Base.{◌++◌, ◌≡◌, refl, true, [], ◌∷◌, none, ok}
use cgroups_rs.Text.{codes, trim}
use cgroups_rs.Text.Split.{split_by}
use cgroups_rs.Dict.{Dict, get, insert}
use cgroups_rs.Io.{Io}
use cgroups_rs.Text.{Text}
use cgroups_rs.Fs.Host.{Place, write_value, push, fs_read}
use cgroups_rs.Fs.Path.{parent, path_eq}
use cgroups_rs.Fs.OneTree.{one_tree}
use cgroups_rs.Fs.Directories.{Directories}
use cgroups_rs.Fs.Controllers as Controllers
use cgroups_rs.Fs.Controller as Controller
use cgroups_rs.Fs.Cgroup.{Cgroup}
use cgroups_rs.Fs.Cgroup.Load.{root_control_group}
use cgroups_rs.Fs.Cgroup.Load as Load
use cgroups_rs.Fs.Subsystem.{Subsystem, controller_of}
use cgroups_rs.Fs.Hierarchies.{Hierarchy, v2, auto}
use cgroups_rs.Fs.Cpuset.{set_cpus}
use cgroups_rs.Fs.Cgroup.Create.{new_cgroup}
use cgroups_rs.Fs.Cpuset.Parent.Walk.{at_top, below}
use cgroups_rs.Manager.Error.{Error}
use cgroups_rs.Manager.Memory.{from_fs}
use cgroups_rs.Manager.Fs.{FsManager, set_controller_topdown}
use cgroups_rs.Manager.Fs.Topdown.{Applies, applied, finished, set_controller_topdown-Applies}

-- Every directory is there, on a mount of version 2.
abbrev tree_dirs : Directories one_tree
tree_dirs = record {
  exists = λ p s. true;
  is_dir = λ p s. true;
  create_dir_all = λ p s. (ok tt, s);
  remove_dir = λ p s. (ok tt, s);
  statfs = λ p s. (ok 0x63677270, s);
  read_dir = λ p s. (ok [], s);
}

abbrev place_at : Text → Place
place_at p = record { base = []; path = p; v2 = true }

abbrev at_b : Place
at_b = place_at (codes "/sys/fs/cgroup/a/b")

abbrev manager_of_b : FsManager
manager_of_b = record {
  paths = [];
  mounts = [];
  base = codes "a/b";
  cgroup = record {
    subsystems = Subsystem.cpu_set at_b ∷ [];
    hier = v2 (codes "/sys/fs/cgroup");
    path = codes "a/b";
    specified_controllers = none;
  };
}

abbrev typed_domain : Dict Text
typed_domain = (codes "/sys/fs/cgroup/a/b/cgroup.type", codes "domain\n") ∷ []

abbrev listed : Dict Text
listed = (codes "/sys/fs/cgroup/cgroup.controllers", codes "cpuset cpu\n") ∷ []

abbrev root_place : Place
root_place = place_at (codes "/sys/fs/cgroup")

abbrev root_cgroup : Cgroup
root_cgroup = record {
  subsystems =
      Subsystem.cpu_set root_place ∷ Subsystem.cpu root_place ∷ Subsystem.freezer root_place ∷ [];
  hier = v2 (codes "/sys/fs/cgroup");
  path = [];
  specified_controllers = none;
}

abbrev set_two : Place → Io (Dict Text) Error (Unit {0})
set_two c = from_fs (set_cpus one_tree c (codes "0-1"))

abbrev cpus_set : Text → Text → Dict Text
cpus_set a b =
    (codes "/sys/fs/cgroup/a/cpuset.cpus", a) ∷ (codes "/sys/fs/cgroup/a/b/cpuset.cpus", b) ∷ listed

abbrev blank : Dict Text
blank = cpus_set (codes "\n") (codes "\n")

abbrev first_set : Dict Text
first_set = cpus_set (codes "0-1\n") (codes "\n")

abbrev set_in_both : Dict Text
set_in_both = cpus_set (codes "0-1\n") (codes "0-1\n")

abbrev hier_v2 : Hierarchy
hier_v2 = v2 (codes "/sys/fs/cgroup")

abbrev group_at : Text → Cgroup
group_at rel =
    let p = place_at (codes "/sys/fs/cgroup/" ++ rel) in
    record {
      subsystems = Subsystem.cpu_set p ∷ Subsystem.cpu p ∷ Subsystem.freezer p ∷ [];
      hier = hier_v2;
      path = rel;
      specified_controllers = none;
    }

-- Both groups are gone through, the manager's own as the last.
runs :
    Applies one_tree tree_dirs [] Controllers.cpu_set set_two
      (codes "a" ∷ codes "a/b" ∷ [])
      blank
      (ok tt)
      set_in_both
unfolding auto new_cgroup controller_of set_cpus get insert
runs =
    applied {rel = codes "a"} {u = blank} {v = blank} {w = first_set} {hier = hier_v2}
      {g = group_at (codes "a")} {c = place_at (codes "/sys/fs/cgroup/a")} refl refl refl refl
      (applied {rel = codes "a/b"} {u = first_set} {v = first_set} {w = set_in_both}
        {hier = hier_v2} {g = group_at (codes "a/b")} {c = at_b} refl refl refl refl
        (finished set_in_both))

set_controller_topdown-Applies_example :
    set_controller_topdown one_tree tree_dirs [] Controllers.cpu_set set_two manager_of_b blank
    ≡ (ok tt, set_in_both)
unfolding root_control_group new_cgroup controller_of path_eq parent fs_read trim split_by push get
    write_value set_cpus
set_controller_topdown-Applies_example =
    set_controller_topdown-Applies one_tree tree_dirs [] Controllers.cpu_set set_two manager_of_b
      at_b root_place (codes "a" ∷ codes "a/b" ∷ []) (codes "/sys/fs/cgroup") blank blank
      set_in_both (ok tt) (root_cgroup, refl, refl) refl
      (below (codes "/sys/fs/cgroup/a/b") refl refl
        (below (codes "/sys/fs/cgroup/a") refl refl (at_top (codes "/sys/fs/cgroup"))))
      refl (refl, (refl, tt)) ((refl, refl, refl), ((refl, refl, refl), tt)) runs
