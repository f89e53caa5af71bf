-- ===== src/Fs/Cgroup/Create/Tests.antt =====
-- A kernel that keeps a log of what is made and written, and lists three controllers.
use cgroups_rs.Base.{
  ◌≡◌, refl, Bool, true, false, ◌&&◌, ◌||◌, List, [], ◌∷◌, some, ok, err, if◌then◌else◌, All, ◌⊎◌,
  inl, inr, arith,
}
use cgroups_rs.Text.{Text, codes, text_eq, text_eq_refl, trim}
use cgroups_rs.Text.Split.{split_by}
use cgroups_rs.Io.{error}
use cgroups_rs.Fs.Host.{Host, push, fs_write, fs_read}
use cgroups_rs.Fs.Directories.{Directories}
use cgroups_rs.Fs.Subsystem.{mem}
use cgroups_rs.Fs.Hierarchies.{v2}
use cgroups_rs.Fs.Cgroup.{Cgroup}
use cgroups_rs.Fs.Cgroup.Create.{subtree_control, create_v2_cgroup, new_with_specified_controllers}
use cgroups_rs.Fs.Cgroup.Create.Delegation.{Delegation}
use cgroups_rs.Fs.Cgroup.Create.BlockIo.{is_blk_io, new_with_specified_controllers-blk_io}

abbrev Log : Type 0
Log = List (Text × Text)

abbrev logged : Text → Text → Log → Bool
logged p b [] = false
logged p b ((q, c) ∷ s) = (text_eq q p && text_eq c b) || logged p b s

-- A process is in this group, so it hands no controller down.
abbrev busy_file : Text
busy_file = codes "/sys/fs/cgroup/busy/cgroup.subtree_control"

abbrev logging : Host
logging = record {
  State = Log;
  create = λ p s. (ok tt, s);
  write_all = λ p b s. if text_eq p busy_file then (err (error 16), s) else (ok tt, (p, b) ∷ s);
  open_file = λ p s. (ok tt, s);
  read_to_string = λ p s. (ok (codes "cpu io memory\n"), s);
  read_lines = λ p s. ([], s);
}

abbrev log_dirs : Directories logging
log_dirs = record {
  exists = λ p s. true;
  is_dir = λ p s. true;
  create_dir_all = λ p s. (ok tt, (p, []) ∷ s);
  remove_dir = λ p s. (ok tt, s);
  statfs = λ p s. (ok 0, s);
  read_dir = λ p s. (ok [], s);
}

abbrev IsOn : Log → Text → Text → Type 0
IsOn s dir c = logged (push dir subtree_control) (b'+' ∷ c) s ≡ true

abbrev top : Text
top = codes "/sys/fs/cgroup"

-- The root, or a directory made below one with the controller enabled.
abbrev IsUsable : Log → Text → Text → Type 0
IsUsable s dir c =
    (dir ≡ top)
    ⊎ ((e : Text) × (name : Text) × (dir ≡ push e name) × IsOn s e c × (logged dir [] s ≡ true))

logged_after : (p b q c : Text) (s : Log) → logged p b s ≡ true → logged p b ((q, c) ∷ s) ≡ true
logged_after p b q c s h = ground (arith, h)

IsUsable-after : (dir c q b : Text) (s : Log) → IsUsable s dir c → IsUsable ((q, b) ∷ s) dir c
IsUsable-after dir c q b s (inl e) = inl e
IsUsable-after dir c q b s (inr (e, name, g, on, made)) =
    inr (e, name, g, logged_after _ _ q b s on, logged_after dir [] q b s made)

logged_now : (p b : Text) (s : Log) → logged p b ((p, b) ∷ s) ≡ true
logged_now p b s = rw (text_eq_refl p, text_eq_refl b) refl

log-Delegation : Delegation logging log_dirs
unfolding fs_write
log-Delegation = record {
  Available = IsUsable;
  Enabled = IsOn;
  MayDelegate = λ s dir. text_eq (push dir subtree_control) busy_file ≡ false;
  CanBeMade = λ s dir. Unit;
  enabled = λ dir c s. (push dir subtree_control, b'+' ∷ c) ∷ s;
  made = λ dir s. (dir, []) ∷ s;
  enables = λ s dir c a m. rw m refl;
  makes = λ s dir m. refl;
  Enabled-enabled = λ s dir c a. logged_now (push dir subtree_control) (b'+' ∷ c) s;
  Available-made = λ s dir name c e. inr (
    dir,
    name,
    refl,
    logged_after (push dir subtree_control) (b'+' ∷ c) (push dir name) [] s e,
    logged_now (push dir name) [] s,
  );
  Available_enabled = λ s dir c e b a. IsUsable-after e b _ _ s a;
  Enabled_enabled = λ s dir c e b a. logged_after _ _ _ _ s a;
  Available_made = λ s dir e b a. IsUsable-after e b dir [] s a;
  Enabled_made = λ s dir e b a. logged_after _ _ dir [] s a;
  MayDelegate_enabled = λ s dir c e m. m;
  MayDelegate_made = λ s dir e m. m;
  CanBeMade_enabled = λ s dir c e m. tt;
  CanBeMade_made = λ s dir e m. tt;
}

abbrev mem_only : List Text
mem_only = codes "memory" ∷ []

-- A parent is made and enabled before the directory below it.
create_v2_cgroup_test : create_v2_cgroup logging log_dirs top (codes "a/b") (some mem_only) [] ≡ (
  ok tt,
  (codes "/sys/fs/cgroup/a/b", [])
      ∷ (codes "/sys/fs/cgroup/a/cgroup.subtree_control", codes "+memory")
      ∷ (codes "/sys/fs/cgroup/a", [])
      ∷ (codes "/sys/fs/cgroup/cgroup.subtree_control", codes "+memory")
      ∷ [],
)
unfolding create_v2_cgroup push fs_write fs_read trim split_by text_eq
create_v2_cgroup_test = refl

abbrev made_group : Cgroup
made_group = record {
  subsystems = mem (record { base = []; path = codes "/sys/fs/cgroup/g"; v2 = true }) ∷ [];
  hier = v2 top;
  path = codes "g";
  specified_controllers = some mem_only;
}

abbrev log_of_group : Log
log_of_group =
    (codes "/sys/fs/cgroup/g", [])
    ∷ (codes "/sys/fs/cgroup/cgroup.subtree_control", codes "+memory")
    ∷ []

new_with_specified_controllers-blk_io_example : All (λ x. is_blk_io x ≡ false) made_group.subsystems
unfolding fs_read new_with_specified_controllers push trim split_by text_eq
new_with_specified_controllers-blk_io_example =
    new_with_specified_controllers-blk_io logging log_dirs [] top (codes "g")
      (codes "cpu io memory\n") mem_only made_group [] log_of_group refl refl refl refl
