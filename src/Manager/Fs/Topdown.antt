-- ===== src/Manager/Fs/Topdown.antt =====
-- The groups that `set_controller_topdown` goes through.
use mathlib.Core.List.{reverse, reverse-reverse}
use cgroups_rs.Base.{
  [], ◌++◌, ◌∙◌, Result, err, none, map, is_empty, false, ℕ, zero, suc, ◌+◌, ◌<◌, ◌≡◌, refl, true,
  List, ◌∷◌, length, All, arith, ok, some, ap,
}
use cgroups_rs.Text.{Text, codes, strip_prefix}
use cgroups_rs.Text.Affix.{trim_start_text-append}
use cgroups_rs.Fs.Error as Fs
use cgroups_rs.Fs.Hierarchies.{Hierarchy, auto}
use cgroups_rs.Fs.Cgroup.Create.{new_cgroup}
use cgroups_rs.Io.{Io, Fault, error, try_for_each}
use cgroups_rs.Fs.Host.{Host, Place}
use cgroups_rs.Fs.Path.{path_eq}
use cgroups_rs.Fs.Path.Parent.{length-parent}
use cgroups_rs.Fs.Cpuset.Parent.Walk.{Line, at_top, below}
use cgroups_rs.Fs.Directories.{Directories}
use cgroups_rs.Fs.Controllers.{Controllers}
use cgroups_rs.Fs.Subsystem.{controller_of}
use cgroups_rs.Fs.Cgroup.{Cgroup}
use cgroups_rs.Fs.Cgroup.Load as Load
use cgroups_rs.Manager.Error.{Error, cgroupfs}
use cgroups_rs.Manager.Fs.{
  FsManager, its, relative, path_stack, set_controller_at, set_controller_topdown,
}

-- No directory of the list is the root.
abbrev pub BelowRoot : Text → List Text → Type 0
BelowRoot root ds = All (λ e. path_eq e root ≡ false) ds

path_stack-Line :
    (n : ℕ) (root : Text) (d : Text) {ds : List Text} {top : Text}
    → Line d ds top
    → path_eq top root ≡ true
    → BelowRoot root ds
    → length d < n
    → path_stack n root d ≡ ds
unfolding path_stack
path_stack-Line zero root d line same other l = absurd (omega arith)
path_stack-Line (suc n) root _ (at_top top) same other l = rw (path_stack, same) refl
path_stack-Line (suc n) root _ (below d {p} _ e line) same (o, other) l =
    rw (path_stack, o, e)
      (ap (λ ts. d ∷ ts)
        (path_stack-Line n root p line same other (omega (arith, l, length-parent d p e))))

-- The path of a group below the root.
abbrev pub under : Text → Text → Text
under root rel = root ++ b'/' ∷ rel

-- The root has a path, and neither it nor a slash stands in front of what is left.
abbrev pub IsRelative : Text → Text → Type 0
IsRelative root rel =
    (is_empty root ≡ false)
    × (strip_prefix root (b'/' ∷ rel) ≡ none)
    × (strip_prefix (codes "/") rel ≡ none)

relative-under : (root rel : Text) → IsRelative root rel → relative root (under root rel) ≡ rel
relative-under [] rel (e, _, _) = cc
relative-under (c ∷ root) rel (_, once, bare) =
    rw (trim_start_text-append c root (b'/' ∷ rel) once) (trim_start_text-append b'/' [] rel bare)

module _ (h : Host) (d : Directories h) (sizes : List Text) where
  open h use {State}

  -- The controller of the root group, read at a state.
  abbrev pub RootOf : Controllers → State → Place → State → Type 0
  RootOf kind s c t =
      (g : Cgroup) × (Load.root_control_group h d sizes s ≡ (ok g, t))
      × (controller_of kind g.subsystems ≡ some c)

  set_controller_topdown-Line :
      (kind : Controllers) (f : Place → Io State Error (Unit {0})) (m : FsManager) (c r : Place)
      (ds : List Text) (top : Text) (s t : State)
      → RootOf kind s r t
      → its kind m ≡ some c
      → Line c.path ds top
      → path_eq top r.path ≡ true
      → BelowRoot r.path ds
      → set_controller_topdown h d sizes kind f m s
        ≡ try_for_each (set_controller_at h d sizes kind f r.path) (reverse ds) t
  unfolding set_controller_topdown
  set_controller_topdown-Line kind f m c r ds top s t (g, read, e) own line same other =
      rw
        (
          read,
          e,
          own,
          path_stack-Line (length c.path + 1) r.path c.path line same other (omega arith),
        )
        refl

  -- What a run over groups below the root does, which are given by their paths below it: for each
  -- one, the hierarchy is found anew, the group is made, and the function is applied to its
  -- controller. The first error ends the run.
  pub data Applies (kind : Controllers) (f : Place → Io State Error (Unit {0}))
      : List Text → State → Result (Fault Error) (Unit {0}) → State → Type 0 where
    finished : (s : State) → Applies kind f [] s (ok tt) s
    applied :
        {rel : Text} {rels : List Text} {s u v w t : State} {hier : Hierarchy} {g : Cgroup}
        {c : Place} {r : Result (Fault Error) (Unit {0})}
        → auto h d sizes s ≡ (ok hier, u)
        → new_cgroup h d sizes hier rel u ≡ (ok g, v)
        → controller_of kind g.subsystems ≡ some c
        → f c v ≡ (ok tt, w)
        → Applies kind f rels w r t
        → Applies kind f (rel ∷ rels) s r t
    failed :
        {rel : Text} {rels : List Text} {s u v w : State} {hier : Hierarchy} {g : Cgroup}
        {c : Place} {e : Fault Error}
        → auto h d sizes s ≡ (ok hier, u)
        → new_cgroup h d sizes hier rel u ≡ (ok g, v)
        → controller_of kind g.subsystems ≡ some c
        → f c v ≡ (err e, w)
        → Applies kind f (rel ∷ rels) s (err e) w
    no_controller :
        {rel : Text} {rels : List Text} {s u v : State} {hier : Hierarchy} {g : Cgroup}
        → auto h d sizes s ≡ (ok hier, u)
        → new_cgroup h d sizes hier rel u ≡ (ok g, v)
        → controller_of kind g.subsystems ≡ none
        → Applies kind f (rel ∷ rels) s (err (error (cgroupfs (Fs.new Fs.subsystems_empty)))) v
    not_made :
        {rel : Text} {rels : List Text} {s u v : State} {hier : Hierarchy} {e : Fs.Error}
        → auto h d sizes s ≡ (ok hier, u)
        → new_cgroup h d sizes hier rel u ≡ (err (error e), v)
        → Applies kind f (rel ∷ rels) s (err (error (cgroupfs e))) v

  try_for_each-Applies :
      (kind : Controllers) (f : Place → Io State Error (Unit {0})) (root : Text) {rels : List Text}
      {s t : State} {r : Result (Fault Error) (Unit {0})}
      → Applies kind f rels s r t
      → All (IsRelative root) rels
      → try_for_each (set_controller_at h d sizes kind f root) (map (under root) rels) s ≡ (r, t)
  unfolding try_for_each set_controller_at
  try_for_each-Applies kind f root (finished s) _ = refl
  try_for_each-Applies kind f root (applied e1 e2 e3 e4 rest) (a, all) =
      rw (relative-under root _ a, e1, e2, e3, e4) (try_for_each-Applies kind f root rest all)
  try_for_each-Applies kind f root (failed e1 e2 e3 e4) (a, all) =
      rw (relative-under root _ a, e1, e2, e3, e4) refl
  try_for_each-Applies kind f root (no_controller e1 e2 e3) (a, all) =
      rw (relative-under root _ a, e1, e2, e3) refl
  try_for_each-Applies kind f root (not_made e1 e2) (a, all) =
      rw (relative-under root _ a, e1, e2) refl

  -- The manager's group is the last of the groups on a line down from the root, each of which is the
  -- root's path, a slash and a path in which the root's path does not come again in front. A setting
  -- from the root down, for which the hierarchy is found each time, makes each of them in this order,
  -- the manager's own included, and applies the function to its controller; it ends with the first
  -- error (of the making, of a controller that is not there, or of the function), or with success.
  pub set_controller_topdown-Applies :
      (kind : Controllers) (f : Place → Io State Error (Unit {0})) (m : FsManager) (c r : Place)
      (rels : List Text) (top : Text) (s t last : State) (result : Result (Fault Error) (Unit {0}))
      → RootOf kind s r t
      → its kind m ≡ some c
      → Line c.path (reverse (map (under r.path) rels)) top
      → path_eq top r.path ≡ true
      → BelowRoot r.path (reverse (map (under r.path) rels))
      → All (IsRelative r.path) rels
      → Applies kind f rels t result last
      → set_controller_topdown h d sizes kind f m s ≡ (result, last)
  set_controller_topdown-Applies kind f m c r rels top s t last result of_root own line same other
        all run =
      set_controller_topdown-Line kind f m c r (reverse (map (under r.path) rels)) top s t of_root
        own line same other
      ∙ ap (λ ps. try_for_each (set_controller_at h d sizes kind f r.path) ps t)
          (reverse-reverse (map (under r.path) rels))
      ∙ try_for_each-Applies kind f r.path run all
