-- ===== src/Fs/Cgroup/Load.antt =====
-- fs/cgroup.rs: the making of a handle (`load` and its variants), and what a group does through the
-- hierarchy it is in.
use cgroups_rs.Base.{
  ℕ, Bool, false, not, ◌||◌, List, [], ◌∷◌, ◌++◌, Option, none, some, unwrap, if◌then◌else◌,
  is_empty,
}
use cgroups_rs.Text.{Text, codes, contains_text, trim_start_char}
use cgroups_rs.Dict.{Dict, get, insert}
use cgroups_rs.Io.{Io, ◌>>=◌, pure, raise, map_err, lift, lift_outcome}
use cgroups_rs.Base.{ok_or}
use cgroups_rs.Fs.Error.{
  Error, new, from_string, with_cause, os_error, cgroup_version, invalid_operation, write_failed,
}
use cgroups_rs.Fs.Host.{Host, Place, push, fs_write}
use cgroups_rs.Fs.Path.{parent}
use cgroups_rs.Fs.CgroupPaths.{get_cgroup_destination}
use cgroups_rs.Fs.Subsystem.{Subsystem, to_controller, enter, controller_name}
use cgroups_rs.Fs.Hierarchies.{
  Hierarchy, is_v2, root, subsystems, auto, mountinfo_self, v1_subsystems,
}
use cgroups_rs.Fs.Directories.{Directories}
use cgroups_rs.Fs.Directories as Dir
use cgroups_rs.Fs.Cgroup.{Cgroup, places, add_task, add_task_by_tgid}

unfoldable pub enter_all : Text → List Subsystem → List Subsystem
unfolding enter
enter_all path [] = []
enter_all path (x ∷ xs) = enter path x ∷ enter_all path xs

-- Those whose name is specified.
unfoldable pub keep_specified : List Text → List Subsystem → List Subsystem
unfolding contains_text
keep_specified names [] = []
keep_specified names (x ∷ xs) =
    let rest = keep_specified names xs in
    if contains_text (controller_name x) names then x ∷ rest else rest

-- A relative path stands between the mount point and the path.
abbrev below_relative : Text → Option Text → Text
below_relative path none = path
below_relative path (some rp) = push (trim_start_char b'/' rp) path

unfoldable pub enter_relative : Dict Text → Text → List Subsystem → List Subsystem
unfolding enter get trim_start_char push
enter_relative relative_paths path [] = []
enter_relative relative_paths path (x ∷ xs) =
    enter (below_relative path (get (controller_name x) relative_paths)) x
    ∷ enter_relative relative_paths path xs

module _ (h : Host) (d : Directories h) (sizes : List Text) where
  open h use {State}

  unfoldable pub load : Hierarchy → Text → Io State Error Cgroup
  unfolding subsystems enter_all
  load hier path = do
    subs ← subsystems h d sizes hier
    pure (record {
      subsystems = if is_empty path then subs else enter_all path subs;
      hier = hier;
      path = path;
      specified_controllers = none;
    })

  unfoldable pub load_with_specified_controllers :
      Hierarchy → Text → List Text → Io State Error Cgroup
  unfolding subsystems enter_all keep_specified
  load_with_specified_controllers hier path names = do
    subs ← subsystems h d sizes hier
    pure (record {
      subsystems = if is_empty path then subs else enter_all path (keep_specified names subs);
      hier = hier;
      path = path;
      specified_controllers = some names;
    })

  unfoldable pub load_with_relative_paths : Hierarchy → Text → Dict Text → Io State Error Cgroup
  unfolding subsystems enter_relative load
  load_with_relative_paths hier path relative_paths = if is_v2 hier then load hier path else (do
    subs ← subsystems h d sizes hier
    pure (record {
      subsystems = if is_empty path then subs else enter_relative relative_paths path subs;
      hier = hier;
      path = path;
      specified_controllers = none;
    }))

  -- `Hierarchy::root_control_group` and `parent_control_group`, the same for both hierarchies. The
  -- empty path has no parent.
  unfoldable pub root_control_group : Io State Error Cgroup
  unfolding auto load
  root_control_group = do hier ← auto h d sizes; load hier []

  unfoldable pub parent_control_group : Cgroup → Io State Error Cgroup
  unfolding auto load parent
  parent_control_group g = do
    parent_path ← lift_outcome (unwrap (parent g.path))
    hier ← auto h d sizes
    load hier parent_path

  unfoldable pub remove_task : Cgroup → ℕ → Io State Error (Unit {0})
  unfolding root_control_group add_task
  remove_task g tid = do r ← root_control_group; add_task h r tid

  unfoldable pub remove_task_by_tgid : Cgroup → ℕ → Io State Error (Unit {0})
  unfolding root_control_group add_task_by_tgid
  remove_task_by_tgid g tgid = do r ← root_control_group; add_task_by_tgid h r tgid

  unfoldable pub move_task_to_parent : Cgroup → ℕ → Io State Error (Unit {0})
  unfolding parent_control_group add_task
  move_task_to_parent g tid = do p ← parent_control_group g; add_task h p tid

  unfoldable pub move_task_to_parent_by_tgid : Cgroup → ℕ → Io State Error (Unit {0})
  unfolding parent_control_group add_task_by_tgid
  move_task_to_parent_by_tgid g tgid = do p ← parent_control_group g; add_task_by_tgid h p tgid

  abbrev kill_file : Text
  kill_file = codes "cgroup.kill"

  -- The one write that kills, if the kernel has the file for it.
  unfoldable pub kill : Cgroup → Io State Error (Unit {0})
  unfolding root push fs_write
  kill g = if not (is_v2 g.hier) then raise (new cgroup_version) else (do
    r ← lift_outcome (root g.hier)
    (λ s.
        (let p = push (push r g.path) kill_file in
            if not (d.exists p s)
            then raise (new invalid_operation)
            else map_err (λ e. with_cause (write_failed kill_file (codes "1")) (os_error e))
                (fs_write h p (codes "1")))
          s))

  -- At least one subsystem is there.
  unfoldable pub any_exists : List Place → State → Bool
  unfolding Dir.exists
  any_exists [] s = false
  any_exists (c ∷ cs) s = Dir.exists h d c s || any_exists cs s

  unfoldable pub exists : Cgroup → State → Bool
  unfolding any_exists
  exists g s = any_exists (places g.subsystems) s

  abbrev missing : Text → Text
  missing name =
      codes "controller " ++ (name ++ codes " found in mountinfo, but not found in cgroup.")

  -- Where the group of each mounted subsystem is below its mount root.
  unfoldable pub destinations : Dict Text → List Subsystem → Dict Text → Io State Error (Dict Text)
  unfolding get insert get_cgroup_destination
  destinations paths [] m = pure m
  destinations paths (x ∷ xs) m = do
    path_from_cgroup ←
        lift (ok_or (get (controller_name x) paths) (from_string (missing (controller_name x))))
    destinations paths xs (
        insert (controller_name x) (get_cgroup_destination (to_controller x).base path_from_cgroup)
          m)

  unfoldable pub existing_path : Dict Text → Io State Error (Dict Text)
  unfolding mountinfo_self v1_subsystems destinations
  existing_path paths = do
    m ← mountinfo_self h d sizes
    destinations paths (v1_subsystems sizes m) []
