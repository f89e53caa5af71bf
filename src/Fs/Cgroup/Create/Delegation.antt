-- ===== src/Fs/Cgroup/Create/Delegation.antt =====
-- A new group of version 2 gets its controllers: the kernel lets a directory use a controller only if
-- the directory above has it enabled for its subtree, and lets a directory enable only a controller
-- that it can use itself, and only while it holds no processes (the root may hold some).
use cgroups_rs.Base.{◌≡◌, List, [], ◌∷◌, ok, All}
use cgroups_rs.Text.{Text}
use cgroups_rs.Io.{Io}
use cgroups_rs.Fs.Error.{Error}
use cgroups_rs.Fs.Host.{Host, push, fs_write}
use cgroups_rs.Fs.Directories.{Directories}
use cgroups_rs.Fs.Cgroup.Create.{subtree_control}

pub record Delegation (h : Host) (d : Directories h) : Type 1 where
  -- The directory can use the controller, and it has it enabled for its subtree.
  pub Available : h.State → Text → Text → Type 0
  pub Enabled : h.State → Text → Text → Type 0
  -- The directory may hand controllers down: it is the root, or no process is in it.
  pub MayDelegate : h.State → Text → Type 0
  -- The kernel lets the directory be made, or it is there.
  pub CanBeMade : h.State → Text → Type 0
  pub enabled : Text → Text → h.State → h.State
  pub made : Text → h.State → h.State
  pub enables :
      (s : h.State) (dir c : Text)
      → Available s dir c
      → MayDelegate s dir
      → fs_write h (push dir subtree_control) (b'+' ∷ c) s ≡ (ok tt, enabled dir c s)
  pub makes :
      (s : h.State) (dir : Text) → CanBeMade s dir → d.create_dir_all dir s ≡ (ok tt, made dir s)
  pub Enabled-enabled :
      (s : h.State) (dir c : Text) → Available s dir c → Enabled (enabled dir c s) dir c
  pub Available-made :
      (s : h.State) (dir name c : Text)
      → Enabled s dir c
      → Available (made (push dir name) s) (push dir name) c
  -- Nothing is taken away, and no process moves.
  pub Available_enabled :
      (s : h.State) (dir c e b : Text) → Available s e b → Available (enabled dir c s) e b
  pub Enabled_enabled :
      (s : h.State) (dir c e b : Text) → Enabled s e b → Enabled (enabled dir c s) e b
  pub Available_made : (s : h.State) (dir e b : Text) → Available s e b → Available (made dir s) e b
  pub Enabled_made : (s : h.State) (dir e b : Text) → Enabled s e b → Enabled (made dir s) e b
  pub MayDelegate_enabled :
      (s : h.State) (dir c e : Text) → MayDelegate s e → MayDelegate (enabled dir c s) e
  pub MayDelegate_made : (s : h.State) (dir e : Text) → MayDelegate s e → MayDelegate (made dir s) e
  pub CanBeMade_enabled :
      (s : h.State) (dir c e : Text) → CanBeMade s e → CanBeMade (enabled dir c s) e
  pub CanBeMade_made : (s : h.State) (dir e : Text) → CanBeMade s e → CanBeMade (made dir s) e

-- The directories on the way down.
unfoldable pub directories : Text → List Text → List Text
directories fp [] = []
directories fp (ele ∷ elements) = push fp ele ∷ directories (push fp ele) elements

-- Those of them that hand the controllers down: all but the last.
unfoldable pub delegating : Text → List Text → List Text
delegating fp [] = []
delegating fp (ele ∷ []) = []
delegating fp (ele ∷ next ∷ elements) = push fp ele ∷ delegating (push fp ele) (next ∷ elements)

module _ (h : Host) (d : Directories h) (k : Delegation h d) where
  open h use {State}

  abbrev pub AllAvailable : List Text → State → Text → Type 0
  AllAvailable cs s dir = All (λ c. k.Available s dir c) cs

  abbrev pub AllEnabled : List Text → State → Text → Type 0
  AllEnabled cs s dir = All (λ c. k.Enabled s dir c) cs

  abbrev pub AllDelegate : List Text → State → Type 0
  AllDelegate ds s = All (λ e. k.MayDelegate s e) ds

  abbrev pub AllCanBeMade : List Text → State → Type 0
  AllCanBeMade ds s = All (λ e. k.CanBeMade s e) ds

  -- What was available, enabled or possible is it after.
  record Grows (s t : State) : Type 0 where
    available : (dir c : Text) → k.Available s dir c → k.Available t dir c
    enabled : (dir c : Text) → k.Enabled s dir c → k.Enabled t dir c
    delegates : (dir : Text) → k.MayDelegate s dir → k.MayDelegate t dir
    makeable : (dir : Text) → k.CanBeMade s dir → k.CanBeMade t dir

  record Ran (m : Io State Error (Unit {0})) (s : State) (P : State → Type 0) : Type 0 where
    after : State
    runs : m s ≡ (ok tt, after)
    grows : Grows s after
    holds : P after
