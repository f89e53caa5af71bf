-- ===== src/Fs/Cgroup.antt =====
-- fs/cgroup.rs: the operations of a control group on its subsystems.
pub mod Load
pub mod Create
pub mod Apply
pub mod Pids
mod Tests
use cgroups_rs.Base.{ℕ, List, [], ◌∷◌, ◌++◌, Bool, ◌||◌, if◌then◌else◌, sort, dedup, Option}
use cgroups_rs.Text.{Text, codes, text_eq}
use cgroups_rs.Io.{Io, ◌>>=◌, ◌>>◌, pure, raise, try_for_each}
use cgroups_rs.Fs.Error.{Error, new, cgroup_version, cgroup_mode, subsystems_empty}
use cgroups_rs.Fs.Host.{Host, Place}
use cgroups_rs.Fs.Subsystem.{Subsystem, to_controller}
use cgroups_rs.Fs.Hierarchies.{Hierarchy, is_v2}
use cgroups_rs.Fs.Controller as Controller

pub record Cgroup : Type 0 where
  pub subsystems : List Subsystem
  pub hier : Hierarchy
  pub path : Text
  pub specified_controllers : Option (List Text)

-- The controllers of the subsystems.
abbrev pub places : List Subsystem → List Place
places [] = []
places (x ∷ xs) = to_controller x ∷ places xs

-- `domain threaded` or `threaded`.
abbrev pub is_threaded : Text → Bool
is_threaded t = text_eq t (codes "domain threaded") || text_eq t (codes "threaded")

module _ (h : Host) where
  open h use {State}

  -- What is done with the first subsystem, the only one that counts in version 2.
  abbrev first_of : {A : Type 0} → List Place → (Place → Io State Error A) → Io State Error A
  first_of [] f = raise (new subsystems_empty)
  first_of (c ∷ cs) f = f c

  unfoldable pub set_cgroup_type : Cgroup → Text → Io State Error (Unit {0})
  unfolding Controller.set_cgroup_type
  set_cgroup_type g cgroup_type =
      if is_v2 g.hier
      then first_of (places g.subsystems) (λ c. Controller.set_cgroup_type h c cgroup_type)
      else raise (new cgroup_version)

  unfoldable pub get_cgroup_type : Cgroup → Io State Error Text
  unfolding Controller.get_cgroup_type
  get_cgroup_type g =
      if is_v2 g.hier
      then first_of (places g.subsystems) (Controller.get_cgroup_type h)
      else raise (new cgroup_version)

  -- In version 2, threads go only into groups in thread mode.
  unfoldable pub add_task : Cgroup → ℕ → Io State Error (Unit {0})
  unfolding try_for_each Controller.add_task get_cgroup_type text_eq
  add_task g tid =
      if is_v2 g.hier
      then first_of (places g.subsystems) (λ c. get_cgroup_type g >>= λ t.
          if is_threaded t then Controller.add_task h c tid else raise (new cgroup_mode))
      else try_for_each (λ c. Controller.add_task h c tid) (places g.subsystems)

  unfoldable pub add_task_by_tgid : Cgroup → ℕ → Io State Error (Unit {0})
  unfolding try_for_each Controller.add_task_by_tgid
  add_task_by_tgid g tgid =
      if is_v2 g.hier
      then first_of (places g.subsystems) (λ c. Controller.add_task_by_tgid h c tgid)
      else try_for_each (λ c. Controller.add_task_by_tgid h c tgid) (places g.subsystems)

  unfoldable pub set_notify_on_release : Cgroup → Bool → Io State Error (Unit {0})
  unfolding try_for_each Controller.set_notify_on_release
  set_notify_on_release g enable =
      try_for_each (λ c. Controller.set_notify_on_release h c enable) (places g.subsystems)

  -- On the subsystems of the root group of the hierarchy.
  unfoldable pub set_release_agent : Cgroup → Text → Io State Error (Unit {0})
  unfolding try_for_each Controller.set_release_agent
  set_release_agent root path =
      try_for_each (λ c. Controller.set_release_agent h c path) (places root.subsystems)

  -- The vectors of all subsystems, one behind the other.
  unfoldable pub gather : (Place → Io State Error (List ℕ)) → List Place → Io State Error (List ℕ)
  gather f [] = pure []
  gather f (c ∷ cs) = do v ← f c; vs ← gather f cs; pure (v ++ vs)

  abbrev pub first_or_none :
      (Place → Io State Error (List ℕ)) → List Place → Io State Error (List ℕ)
  first_or_none f [] = pure []
  first_or_none f (c ∷ cs) = f c

  -- The vector before it is sorted.
  unfoldable pub collected : (Place → Io State Error (List ℕ)) → Cgroup → Io State Error (List ℕ)
  unfolding gather
  collected f g =
      if is_v2 g.hier then first_or_none f (places g.subsystems) else gather f (places g.subsystems)

  unfoldable pub procs : Cgroup → Io State Error (List ℕ)
  unfolding collected sort dedup Controller.read_pids
  procs g = do v ← collected (Controller.procs h) g; pure (dedup (sort v))

  unfoldable pub tasks : Cgroup → Io State Error (List ℕ)
  unfolding collected sort dedup Controller.read_pids
  tasks g = do v ← collected (Controller.tasks h) g; pure (dedup (sort v))
