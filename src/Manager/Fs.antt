-- ===== src/Manager/Fs.antt =====
-- manager/fs.rs: the manager on the cgroup file systems (`FsManager` and its part of the trait
-- `Manager`).
pub mod Topdown
pub mod Threads
mod Tests
use mathlib.Core.List.{reverse}
use cgroups_rs.Base.{
  ℕ, ℤ, zero, suc, ◌+◌, Bool, true, false, not, ◌&&◌, List, [], ◌∷◌, ◌++◌, Option, none, some,
  ok_or, length, if◌then◌else◌, is_empty,
}
use cgroups_rs.Text.{Text, codes, text_eq, trim_start, is_whitespace}
use cgroups_rs.Text.Affix.{trim_start_text}
use cgroups_rs.Dict.{Dict, get}
use cgroups_rs.Io.{
  Io, ◌>>=◌, ◌>>◌, pure, raise, lift, lift_outcome, map_err, or_else, when_some, try_for_each,
  for_each,
}
use cgroups_rs.Fs.Error as Fs
use cgroups_rs.Fs.Host.{Host, Place, push, fs_read}
use cgroups_rs.Fs.Path.{parent, path_eq}
use cgroups_rs.Fs.Controllers as Controllers
use cgroups_rs.Fs.Controllers.{Controllers}
use cgroups_rs.Fs.Subsystem.{Subsystem, to_controller, controller_of, sizes_of}
use cgroups_rs.Fs.Hierarchies.{Hierarchy, is_v2, root, auto, unified_mountpoint}
use cgroups_rs.Fs.Directories.{Directories}
use cgroups_rs.Fs.Controller as Controller
use cgroups_rs.Fs.Cgroup.{Cgroup}
use cgroups_rs.Fs.Cgroup as Cgroup
use cgroups_rs.Fs.Cgroup.Load as Load
use cgroups_rs.Fs.Cgroup.Create as Create
use cgroups_rs.Fs.Cpuset.{set_cpus}
use cgroups_rs.Manager.Proc.{parse_cgroup_subsystems, parse_cgroup_mountinfo}
use cgroups_rs.Manager.Error.{Error, cgroupfs}
use cgroups_rs.Manager.Memory.{LinuxMemory, controller, from_fs, set_memory}
use cgroups_rs.Manager.Limits.{
  LinuxCpu, LinuxDeviceCgroup, set_cpuset, set_cpu, set_pids, set_devices,
}
use cgroups_rs.Manager.Resources.{
  LinuxBlockIo, LinuxHugepageLimit, LinuxNetwork, set_blkio, set_hugepages, set_network,
}

pub record FsManager : Type 0 where
  pub paths : Dict Text
  pub mounts : Dict Text
  pub base : Text
  pub cgroup : Cgroup

pub record LinuxResources : Type 0 where
  pub cpu : Option LinuxCpu
  pub memory : Option LinuxMemory
  pub pids : Option ℤ
  pub block_io : Option LinuxBlockIo
  pub hugepage_limits : Option (List LinuxHugepageLimit)
  pub network : Option LinuxNetwork
  pub devices : Option (List LinuxDeviceCgroup)

unfoldable pub join_path : Text → Text → Text
unfolding push
join_path base path = push base path

abbrev pub v2 : FsManager → Bool
v2 m = is_v2 m.cgroup.hier

-- `self.cgroup.controller_of()`, for a kind of controllers.
abbrev pub its : Controllers → FsManager → Option Place
its kind m = controller_of kind m.cgroup.subsystems

abbrev is_cgroup_mode : Fs.ErrorKind → Bool
is_cgroup_mode Fs.cgroup_mode = true
is_cgroup_mode _ = false

-- The stack of a path and the paths above it, up to and without the root. A parent is shorter, so
-- one round for each character and one more are enough.
unfoldable pub path_stack : ℕ → Text → Text → List Text
unfolding path_eq parent
path_stack zero root_path p = []
path_stack (suc rounds) root_path p = elim (path_eq p root_path) [
  | true ↦ []
  | false ↦ p ∷ elim (parent p) [ none ↦ [] | some q ↦ path_stack rounds root_path q ]
]

-- The path below the root, with no slash in front.
abbrev pub relative : Text → Text → Text
relative root_path p = trim_start_text (codes "/") (trim_start_text root_path p)

module _ (h : Host) (d : Directories h) (sizes : List Text) where
  open h use {State}

  -- `fs::read_to_string` of a file about the process itself
  abbrev own_file : Text → Io State Error Text
  own_file p = from_fs (map_err (λ e. Fs.with_cause Fs.fs_error (Fs.os_error e)) (fs_read h p))

  unfoldable pub new : Text → Io State Error FsManager
  unfolding fs_read parse_cgroup_subsystems parse_cgroup_mountinfo auto Load.load
  new base = do
    subsystems ← own_file (codes "/proc/self/cgroup")
    let paths = parse_cgroup_subsystems subsystems
    mountinfo ← own_file (codes "/proc/self/mountinfo")
    mounts ← lift_outcome (parse_cgroup_mountinfo paths mountinfo)
    hier ← from_fs (auto h d sizes)
    cgroup ← from_fs (Load.load h d sizes hier base)
    pure (record { paths = paths; mounts = mounts; base = base; cgroup = cgroup })

  abbrev pub exists : FsManager → State → Bool
  exists m = Load.exists h d sizes m.cgroup

  unfoldable pub create_cgroups : FsManager → Io State Error (Unit {0})
  unfolding Create.create Load.exists
  create_cgroups m s = (if exists m s then pure tt else from_fs (Create.create h d m.cgroup)) s

  -- Under Docker in Docker, a group `init` stands in the group.
  unfoldable pub subcgroup : FsManager → Io State Error Text
  unfolding auto root push
  subcgroup m = do
    hier ← from_fs (auto h d sizes)
    r ← lift_outcome (root hier)
    (λ s.
        pure
          (if v2 m && d.exists (push (push r m.base) (codes "init")) s
            then codes "/init/"
            else codes "/")
          s)

  unfoldable pub add_proc : FsManager → ℕ → Io State Error (Unit {0})
  unfolding create_cgroups Cgroup.add_task_by_tgid
  add_proc m tgid = create_cgroups m >> from_fs (Cgroup.add_task_by_tgid h m.cgroup tgid)

  -- A group that is not in thread mode takes the process.
  unfoldable pub add_thread : FsManager → ℕ → Io State Error (Unit {0})
  unfolding create_cgroups Cgroup.add_task add_proc
  add_thread m pid =
      create_cgroups m
      >> or_else (Cgroup.add_task h m.cgroup pid)
          (λ e. if is_cgroup_mode e.kind && v2 m then add_proc m pid else raise (cgroupfs e))

  unfoldable pub pids : FsManager → Io State Error (List ℕ)
  unfolding Controller.read_pids
  pids m = do c ← controller h (its Controllers.mem m); from_fs (Controller.tasks h c)

  -- Every process, in version 1 every thread, goes to the root group first, as far as it can.
  unfoldable pub destroy : ℕ → FsManager → Io State Error (Unit {0})
  unfolding Load.exists Cgroup.procs Cgroup.tasks Load.remove_task_by_tgid Load.remove_task
      Create.delete for_each
  destroy depth m s =
      (if not (exists m s)
          then pure tt
          else (if v2 m
              then (from_fs (Cgroup.procs h m.cgroup) >>= λ ps.
                  for_each (λ p. from_fs (Load.remove_task_by_tgid h d sizes m.cgroup p)) ps)
              else (from_fs (Cgroup.tasks h m.cgroup) >>= λ ts.
                  for_each (λ t. from_fs (Load.remove_task h d sizes m.cgroup t)) ts))
            >> from_fs (Create.delete h d depth m.cgroup))
        s

  unfoldable pub set : FsManager → LinuxResources → Io State Error (Unit {0})
  unfolding set_cpuset set_cpu set_memory set_pids set_blkio set_hugepages set_network set_devices
  set m r = do
    when_some r.cpu (λ cpu.
        set_cpuset h (its Controllers.cpu_set m) cpu
        >> set_cpu h (v2 m) (its Controllers.cpu m) cpu)
    when_some r.memory (set_memory h (v2 m) (its Controllers.mem m))
    when_some r.pids (set_pids h (its Controllers.pids m))
    when_some r.block_io (set_blkio h (its Controllers.blk_io m))
    when_some r.hugepage_limits
        (set_hugepages h (sizes_of m.cgroup.subsystems) (its Controllers.huge_tlb m))
    when_some r.network (set_network h (its Controllers.net_cls m) (its Controllers.net_prio m))
    when_some r.devices (set_devices h (its Controllers.devices m))

  unfoldable pub cgroup_path : FsManager → Option Text → Io State Error Text
  unfolding get join_path
  cgroup_path m subsystem = if v2 m then pure (join_path unified_mountpoint m.base) else (do
    name ← lift (ok_or subsystem (cgroupfs (Fs.new Fs.invalid_path)))
    lift (ok_or (get name m.paths) (cgroupfs (Fs.new Fs.subsystems_empty))))

  -- One group on the way down: it is made, and the function is applied to its controller.
  unfoldable pub set_controller_at :
      Controllers → (Place → Io State Error (Unit {0})) → Text → Text → Io State Error (Unit {0})
  unfolding auto Create.new_cgroup trim_start_text
  set_controller_at kind f root_path p = do
    hier ← from_fs (auto h d sizes)
    g ← from_fs (Create.new_cgroup h d sizes hier (relative root_path p))
    c ← controller h (controller_of kind g.subsystems)
    f c

  unfoldable pub set_controller_topdown :
      Controllers → (Place → Io State Error (Unit {0})) → FsManager → Io State Error (Unit {0})
  unfolding Load.root_control_group path_stack set_controller_at try_for_each
  set_controller_topdown kind f m = do
    r ← from_fs (Load.root_control_group h d sizes)
    root_controller ← controller h (controller_of kind r.subsystems)
    c ← controller h (its kind m)
    try_for_each (set_controller_at kind f root_controller.path)
        (reverse (path_stack (length c.path + 1) root_controller.path c.path))

  unfoldable pub enable_cpus_topdown : FsManager → Text → Io State Error (Unit {0})
  unfolding set_controller_topdown set_cpus
  enable_cpus_topdown m cpus =
      if is_empty cpus
      then pure tt
      else set_controller_topdown Controllers.cpu_set (λ c. from_fs (set_cpus h c cpus)) m
