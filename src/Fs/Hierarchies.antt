-- ===== src/Fs/Hierarchies.antt =====
-- fs/hierarchies.rs: the two hierarchies, their subsystems and their roots.
use cgroups_rs.Base.{
  ℕ, Bool, true, false, ◌&&◌, List, [], ◌∷◌, ◌++◌, Option, none, some, Outcome, returns, panics,
  unwrap, if◌then◌else◌, ◌==◌,
}
use cgroups_rs.Text.{Text, codes, text_eq, contains_text, trim}
use cgroups_rs.Text.Split.{split, split_by}
use cgroups_rs.Io.{Io, ◌>>=◌, ◌>>◌, pure, or_else}
use cgroups_rs.Fs.Error.{Error}
use cgroups_rs.Fs.Host.{Host, Place, fs_read}
use cgroups_rs.Fs.Path.{parent}
use cgroups_rs.Fs.CgroupPaths.{Mountinfo, mountinfo_of_lines}
use cgroups_rs.Fs.Controllers.{Controllers, name_of}
use cgroups_rs.Fs.Subsystem.{Subsystem}
use cgroups_rs.Fs.Directories.{Directories}

pub data Hierarchy : Type 0 where
  v1 : List Mountinfo → Hierarchy
  v2 : Text → Hierarchy

abbrev pub is_v2 : Hierarchy → Bool
is_v2 (v1 _) = false
is_v2 (v2 _) = true

abbrev pub unified_mountpoint : Text
unified_mountpoint = codes "/sys/fs/cgroup"

-- `{UNIFIED_MOUNTPOINT}/cgroup.controllers`
abbrev pub controllers_file : Text
controllers_file = codes "/sys/fs/cgroup/cgroup.controllers"

abbrev is_cgroup : Mountinfo → Bool
is_cgroup m = text_eq m.fs_type.0 (codes "cgroup")

-- The mount point and the mount root.
unfoldable pub get_mount_point : List Mountinfo → Controllers → Option (Text × Text)
unfolding text_eq contains_text
get_mount_point [] c = none
get_mount_point (m ∷ ms) c =
    if is_cgroup m && contains_text (name_of c) m.super_opts
    then some (m.mount_point, m.mount_root)
    else get_mount_point ms c

-- A subsystem where its controller is mounted.
abbrev pub mounted : (Place → Subsystem) → Option (Text × Text) → List Subsystem
mounted new none = []
mounted new (some (point, root)) = new (record { base = root; path = point; v2 = false }) ∷ []

-- `V1::subsystems`, with the sizes of huge pages of the system.
unfoldable pub v1_subsystems : List Text → List Mountinfo → List Subsystem
unfolding get_mount_point
v1_subsystems sizes m =
    mounted Subsystem.blk_io (get_mount_point m Controllers.blk_io)
    ++ (mounted Subsystem.mem (get_mount_point m Controllers.mem)
        ++ (mounted Subsystem.pid (get_mount_point m Controllers.pids)
            ++ (mounted Subsystem.cpu_set (get_mount_point m Controllers.cpu_set)
                ++ (mounted Subsystem.cpu_acct (get_mount_point m Controllers.cpu_acct)
                    ++ (mounted Subsystem.cpu (get_mount_point m Controllers.cpu)
                        ++ (mounted Subsystem.devices (get_mount_point m Controllers.devices)
                            ++ (mounted Subsystem.freezer (get_mount_point m Controllers.freezer)
                                ++ (mounted Subsystem.net_cls
                                      (get_mount_point m Controllers.net_cls)
                                    ++ (mounted Subsystem.perf_event
                                          (get_mount_point m Controllers.perf_event)
                                        ++ (mounted Subsystem.net_prio
                                              (get_mount_point m Controllers.net_prio)
                                            ++ (mounted (Subsystem.huge_tlb sizes)
                                                  (get_mount_point m Controllers.huge_tlb)
                                                ++ (mounted Subsystem.rdma
                                                      (get_mount_point m Controllers.rdma)
                                                    ++ mounted Subsystem.systemd (
                                                        get_mount_point m
                                                          Controllers.systemd)))))))))))))

-- The subsystem of a name in `cgroup.controllers`.
unfoldable pub v2_subsystem : List Text → Text → Text → Option Subsystem
unfolding text_eq
v2_subsystem sizes root s =
    let cont : Place = record { base = []; path = root; v2 = true } in
    if text_eq s (codes "cpu")
    then some (Subsystem.cpu cont)
    else if text_eq s (codes "io")
    then some (Subsystem.blk_io cont)
    else if text_eq s (codes "cpuset")
    then some (Subsystem.cpu_set cont)
    else if text_eq s (codes "memory")
    then some (Subsystem.mem cont)
    else if text_eq s (codes "pids")
    then some (Subsystem.pid cont)
    else if text_eq s (codes "freezer")
    then some (Subsystem.freezer cont)
    else if text_eq s (codes "hugetlb")
    then some (Subsystem.huge_tlb sizes cont)
    else none

abbrev push_known : Option Subsystem → List Subsystem → List Subsystem
push_known none subs = subs
push_known (some x) subs = x ∷ subs

unfoldable pub v2_subsystems_of : List Text → Text → List Text → List Subsystem
unfolding v2_subsystem
v2_subsystems_of sizes root [] = []
v2_subsystems_of sizes root (s ∷ ss) =
    push_known (v2_subsystem sizes root s) (v2_subsystems_of sizes root ss)

-- The names in `cgroup.controllers`, and the freezer, which is there without a name.
abbrev pub controller_list : Text → List Text
controller_list content = split b' ' (trim content) ++ codes "freezer" ∷ []

-- `V1::root`: the directory above the first mount point.
unfoldable pub v1_root : List Mountinfo → Outcome Text
unfolding text_eq parent
v1_root [] = panics
v1_root (m ∷ ms) = if is_cgroup m then unwrap (parent m.mount_point) else v1_root ms

unfoldable pub root : Hierarchy → Outcome Text
unfolding v1_root
root (v1 m) = v1_root m
root (v2 r) = returns r

module _ (h : Host) (d : Directories h) (sizes : List Text) where
  open h use {State, open_file, read_lines}

  unfoldable pub subsystems : Hierarchy → Io State Error (List Subsystem)
  unfolding v1_subsystems v2_subsystems_of fs_read trim split_by
  subsystems (v1 m) = pure (v1_subsystems sizes m)
  subsystems (v2 r) =
      or_else
        (fs_read h controllers_file >>= λ content.
          pure (v2_subsystems_of sizes r (controller_list content)))
        (λ e. pure [])

  -- `mountinfo_self`
  unfoldable pub mountinfo_self : Io State Error (List Mountinfo)
  unfolding mountinfo_of_lines
  mountinfo_self =
      or_else
        (open_file (codes "/proc/self/mountinfo") >> λ s.
          let (ls, after) = read_lines (codes "/proc/self/mountinfo") s in
          pure (mountinfo_of_lines ls) after)
        (λ e. pure [])

  -- `CGROUP2_SUPER_MAGIC`
  abbrev cgroup2_super_magic : ℕ
  cgroup2_super_magic = 0x63677270

  unfoldable pub is_cgroup2_unified_mode : Io State Error Bool
  is_cgroup2_unified_mode =
      or_else (d.statfs unified_mountpoint >>= λ t. pure (t == cgroup2_super_magic))
        (λ e. pure false)

  unfoldable pub auto : Io State Error Hierarchy
  unfolding is_cgroup2_unified_mode mountinfo_self
  auto = do
    unified ← is_cgroup2_unified_mode
    (if unified then pure (v2 unified_mountpoint) else (do m ← mountinfo_self; pure (v1 m)))
