-- ===== src/Fs/Cgroup/Create.antt =====
-- fs/cgroup.rs: the creation and the deletion of a control group. In version 2 the directories are
-- made one below the other, with the controllers enabled for the subtree before the next one.
pub mod Delegation
pub mod BlockIo
mod Tests
use cgroups_rs.Base.{
  ℕ, Bool, true, false, not, ◌&&◌, List, [], ◌∷◌, ◌++◌, Option, none, some, if◌then◌else◌, is_empty,
}
use cgroups_rs.Text.{Text, codes, contains_text, trim}
use cgroups_rs.Text.Split.{split, split_by}
use cgroups_rs.Dict.{Dict}
use cgroups_rs.Io.{
  Io, ◌>>=◌, ◌>>◌, pure, raise, map_err, or_else, for_each, try_for_each, lift_outcome,
}
use cgroups_rs.Fs.Error.{
  Error, new, with_cause, os_error, fs_error, remove_failed, specified_controllers,
}
use cgroups_rs.Fs.Host.{Host, Place, push, fs_read, fs_write}
use cgroups_rs.Fs.Subsystem.{Subsystem, to_controller}
use cgroups_rs.Fs.Subsystem as Subsystem
use cgroups_rs.Fs.Hierarchies.{Hierarchy, is_v2, root, controllers_file}
use cgroups_rs.Fs.Directories.{Directories}
use cgroups_rs.Fs.Directories as Dir
use cgroups_rs.Fs.Cpuset.Parent.{post_create}
use cgroups_rs.Fs.Cgroup.{Cgroup, places}
use cgroups_rs.Fs.Cgroup.Load.{load, load_with_specified_controllers, load_with_relative_paths}

-- `split(' ')`, each piece trimmed.
abbrev pub trim_all : List Text → List Text
trim_all [] = []
trim_all (w ∷ ws) = trim w ∷ trim_all ws

abbrev pub contains_all : List Text → List Text → Bool
contains_all sc [] = true
contains_all sc (c ∷ cs) = contains_text c sc && contains_all sc cs

abbrev pub subtree_control : Text
subtree_control = codes "cgroup.subtree_control"

module _ (h : Host) (d : Directories h) where
  open h use {State}

  unfoldable pub supported_controllers : Io State Error (List Text)
  unfolding fs_read trim split_by
  supported_controllers = do
    ret ← or_else (fs_read h controllers_file) (λ e. pure [])
    pure (trim_all (split b' ' ret))

  unfoldable pub verify_supported_controllers : List Text → Io State Error Bool
  unfolding supported_controllers contains_text
  verify_supported_controllers controllers = do
    sc ← supported_controllers
    pure (contains_all sc controllers)

  -- A controller that cannot be enabled is passed over.
  unfoldable pub enable_controllers : List Text → Text → Io State Error (Unit {0})
  unfolding for_each fs_write push
  enable_controllers controllers path =
      for_each
        (λ c.
          map_err (λ e. with_cause fs_error (os_error e))
            (fs_write h (push path subtree_control) (b'+' ∷ c)))
        controllers

  -- The elements of the path, each below the one before. All but the last are enabled for the
  -- subtree.
  unfoldable pub create_elements : List Text → Text → List Text → Io State Error (Unit {0})
  unfolding enable_controllers push
  create_elements controllers fp [] = pure tt
  create_elements controllers fp (ele ∷ elements) =
      map_err (λ e. with_cause fs_error (os_error e)) (d.create_dir_all (push fp ele))
      >> (if is_empty elements then pure tt else enable_controllers controllers (push fp ele))
      >> create_elements controllers (push fp ele) elements

  -- The specified controllers if all are supported, all supported ones if none are specified.
  unfoldable pub chosen_controllers : Option (List Text) → Io State Error (List Text)
  unfolding verify_supported_controllers supported_controllers
  chosen_controllers none = supported_controllers
  chosen_controllers (some s_controllers) = do
    supported ← verify_supported_controllers s_controllers
    (if supported then pure s_controllers else raise (new specified_controllers))

  unfoldable pub create_v2_cgroup : Text → Text → Option (List Text) → Io State Error (Unit {0})
  unfolding chosen_controllers enable_controllers create_elements split_by
  create_v2_cgroup r path specified = do
    controllers ← chosen_controllers specified
    enable_controllers controllers r >> create_elements controllers r (split b'/' path)

  -- The hook behind the creation of a directory, which only the cpuset controller has.
  unfoldable pub hook : Subsystem → Place → Io State Error (Unit {0})
  unfolding post_create
  hook (Subsystem.cpu_set _) c = post_create h c
  hook _ c = pure tt

  unfoldable pub create : Cgroup → Io State Error (Unit {0})
  unfolding create_v2_cgroup root Dir.create hook try_for_each
  create g =
      if is_v2 g.hier
      then (do r ← lift_outcome (root g.hier); create_v2_cgroup r g.path g.specified_controllers)
      else try_for_each (λ x. Dir.create h d (hook x) (to_controller x)) g.subsystems

  -- In version 2 one directory without its children, in version 1 the tree of each subsystem.
  unfoldable pub delete : ℕ → Cgroup → Io State Error (Unit {0})
  unfolding root push Dir.delete try_for_each
  delete depth g =
      if is_v2 g.hier
      then (if not (is_empty g.path)
          then (do
            r ← lift_outcome (root g.hier)
            map_err (λ e. with_cause remove_failed (os_error e)) (d.remove_dir (push r g.path)))
          else pure tt)
      else try_for_each (λ c. Dir.delete h d depth c) (places g.subsystems)

  module _ (sizes : List Text) where
    -- `Cgroup::new`
    unfoldable pub new_cgroup : Hierarchy → Text → Io State Error Cgroup
    unfolding load create
    new_cgroup hier path = do g ← load h d sizes hier path; create g >> pure g

    unfoldable pub new_with_specified_controllers :
        Hierarchy → Text → Option (List Text) → Io State Error Cgroup
    unfolding load load_with_specified_controllers create
    new_with_specified_controllers hier path none = do
      g ← load h d sizes hier path
      create g >> pure g
    new_with_specified_controllers hier path (some sc) = do
      g ← load_with_specified_controllers h d sizes hier path sc
      create g >> pure g

    unfoldable pub new_with_relative_paths : Hierarchy → Text → Dict Text → Io State Error Cgroup
    unfolding load_with_relative_paths create
    new_with_relative_paths hier path relative_paths = do
      g ← load_with_relative_paths h d sizes hier path relative_paths
      create g >> pure g
