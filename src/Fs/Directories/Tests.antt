-- ===== src/Fs/Directories/Tests.antt =====
-- A group and a group in it. Only directories are kept, no files.
use cgroups_rs.Base.{
  ℕ, ◌<◌, ◌≡◌, refl, Bool, true, false, ◌&&◌, not, List, [], ◌∷◌, ok, err, map, if◌then◌else◌, inl,
  inr, Bool-cases, arith, All, ◌⊎◌,
}
use cgroups_rs.Text.{Text, codes, text_eq, text_eq_sound}
use cgroups_rs.Io.{error, panic}
use cgroups_rs.Fs.Error.{with_cause, remove_failed, os_error}
use cgroups_rs.Fs.Host.{Host, Place, push}
use cgroups_rs.Fs.Directories.{Directories, remove_dir, delete, exists}
use cgroups_rs.Fs.Directories.Removal.{Lawful}
use cgroups_rs.Fs.Directories.Tries.{at_first, delete_tries}

-- Whether the outer and the inner group are there, and whether a process is in the inner one.
record Two : Type 0 where
  outer : Bool
  inner : Bool
  busy : Bool

abbrev two_groups : Host
two_groups = record {
  State = Two;
  create = λ p s. (err (error 2), s);
  write_all = λ p t s. (err (error 2), s);
  open_file = λ p s. (err (error 2), s);
  read_to_string = λ p s. (err (error 2), s);
  read_lines = λ p s. ([], s);
}

abbrev g : Text
g = codes "/g"

abbrev g_a : Text
g_a = codes "/g/a"

abbrev there : Text → Two → Bool
there p s = if text_eq p g then s.outer else if text_eq p g_a then s.inner else false

abbrev without : Text → Two → Two
without p s =
    if text_eq p g
    then record s { outer = false }
    else if text_eq p g_a
    then record s { inner = false }
    else s

abbrev names : Text → List Text
names p = if text_eq p g then codes "a" ∷ [] else []

-- A group with a group or a process in it is not removed.
abbrev removable : Text → Two → Bool
removable p s =
    if text_eq p g then s.outer && not s.inner else there p s && not (text_eq p g_a && s.busy)

abbrev IsIdle : Two → Text → Type 0
IsIdle s p = (text_eq p g_a && s.busy) ≡ false

abbrev groups : Directories two_groups
groups = record {
  exists = there;
  is_dir = there;
  create_dir_all = λ p s. (ok tt, s);
  remove_dir = λ p s. if removable p s then (ok tt, without p s) else (err (error 39), s);
  statfs = λ p s. (ok 0, s);
  read_dir = λ p s. (ok (map (λ n. ok n) (names p)), s);
}

abbrev height : Text → ℕ
height p = if text_eq p g then 1 else if text_eq p g_a then 0 else 2

inside_lem :
    (p : Text)
    → All (λ n. (u : Two) → there (push p n) u ≡ true → height (push p n) < height p) (names p)
unfolding text_eq push
inside_lem p = elim (Bool-cases (text_eq p g)) [
  | inl q ↦ rw (text_eq_sound p g q) ((λ u e. omega arith), tt)
  | inr q ↦ rw q tt
]

removes_lem :
    (p : Text) (s : Two)
    → (groups.remove_dir p s ≡ (ok tt, without p s))
      ⊎ ((e : ℕ) × (groups.remove_dir p s ≡ (err (error e), s)))
removes_lem p s = elim (Bool-cases (removable p s)) [
  | inl q ↦ inl (rw q refl)
  | inr q ↦ inr (39, rw q refl)
]

leaf_lem :
    (p : Text) (u : Two)
    → IsIdle u p
    → there p u ≡ true
    → All (λ n. there (push p n) u ≡ false) (names p)
    → groups.remove_dir p u ≡ (ok tt, without p u)
unfolding text_eq push
leaf_lem p u = elim (Bool-cases (text_eq p g)) [
  | inl q ↦ rw (text_eq_sound p g q) (λ i e a. rw (e, a.0) refl)
  | inr q ↦ rw q (λ i e a. rw (e, i) refl)
]

groups-Lawful : Lawful two_groups groups
groups-Lawful = record {
  Idle = IsIdle;
  entries = λ s p. names p;
  height = height;
  removed = without;
  is_dir-exists = λ s p e. e;
  reads = λ s p e. refl;
  inside = λ s p. inside_lem p;
  removes = λ s p. removes_lem p s;
  leaf = λ s u p i w e a. leaf_lem p u i e a;
  Idle-removed = λ s p q i. ground (arith, i);
  gone = λ s p. ground arith;
  no_other = λ s p q e. ground arith;
  above = λ s p q l e. ground arith;
}

abbrev both : Two
both = record { outer = true; inner = true; busy = false }

-- A process in the inner group keeps both groups.
remove_dir_busy_test :
    remove_dir two_groups groups 2 g (record both { busy = true })
    ≡ (err (error (with_cause remove_failed (os_error 39))), record both { busy = true })
unfolding remove_dir push text_eq
remove_dir_busy_test = refl

remove_dir_test :
    remove_dir two_groups groups 2 g both
    ≡ (ok tt, record { outer = false; inner = false; busy = false })
unfolding remove_dir push text_eq
remove_dir_test = refl

abbrev place : Place
place = record { base = codes "/"; path = g; v2 = false }

delete_tries_example :
    delete two_groups groups 2 place both
    ≡ (ok tt, record { outer = false; inner = false; busy = false })
unfolding remove_dir push text_eq exists
delete_tries_example =
    delete_tries two_groups groups 2 place 0 both both
      (record { outer = false; inner = false; busy = false }) (ok tt) refl (at_first both)
      (omega arith) refl (inl refl)

-- A stack too shallow for the tree is a panic, whatever the tries.
delete_panics_test : delete two_groups groups 1 place both ≡ (err panic, both)
unfolding delete push text_eq
delete_panics_test = refl
