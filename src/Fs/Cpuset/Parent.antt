-- ===== src/Fs/Cpuset/Parent.antt =====
-- fs/cpuset.rs: the value that a new group takes over from the nearest directory above it that has
-- one (`find_no_empty_parent`, `copy_from_parent`, `post_create`).
pub mod Walk
pub mod Fill
mod Tests
use mathlib.Core.List.{reverse}
use cgroups_rs.Base.{
  ℕ, zero, suc, ◌+◌, ◌||◌, List, [], ◌∷◌, ◌++◌, Option, none, some, if◌then◌else◌, is_empty, length,
  unwrap,
}
use cgroups_rs.Text.{Text, codes, trim}
use cgroups_rs.Io.{Io, ◌>>=◌, ◌>>◌, pure, map_err, try_for_each, ignore, lift_outcome}
use cgroups_rs.Fs.Error.{Error, os_error, with_cause, read_failed, write_failed}
use cgroups_rs.Fs.Host.{Host, Place, push, fs_read, fs_write}
use cgroups_rs.Fs.Path.{parent, path_eq}

module _ (h : Host) where
  open h use {State}

  unfoldable pub value_at : Text → Text → Io State Error Text
  unfolding fs_read trim
  value_at dir file = do
    cpus ← map_err (λ e. with_cause (read_failed dir) (os_error e)) (fs_read h (push dir file))
    pure (trim cpus)

  abbrev pub Found : Type 0
  Found = Io State Error (Option (Text × List Text))

  -- At the root the walk ends without a value, below it the next round looks at the parent.
  abbrev pub climb : (Text → Found) → List Text → Option Text → Found
  climb next v none = pure (some ([], v))
  climb next v (some p) = next p

  abbrev pub round : (Text → Found) → Text → List Text → Text → Found
  round next dir v value =
      if is_empty value then climb next (v ++ dir ∷ []) (parent dir) else pure (some (value, v))

  -- The loop, `none` when the rounds run out: the value, and the directories without one.
  unfoldable pub find_rounds : ℕ → Text → Text → List Text → Found
  unfolding value_at parent
  find_rounds zero file dir v = pure none
  find_rounds (suc rounds) file dir v = do
    value ← value_at dir file
    round (λ p. find_rounds rounds file p (v ++ dir ∷ [])) dir v value

  unfoldable pub find_no_empty_parent : Text → Text → Io State Error (Option (Text × List Text))
  unfolding find_rounds
  find_no_empty_parent from file = find_rounds (length from + 1) file from []

  unfoldable pub write_at : Text → Text → Text → Io State Error (Unit {0})
  unfolding fs_write
  write_at file value dir =
      map_err (λ e. with_cause (write_failed (push dir file) (push dir file)) (os_error e))
        (fs_write h (push dir file) value)

  -- The outermost directory comes first.
  unfoldable pub copy_from_parent : Text → Text → Io State Error (Unit {0})
  unfolding find_no_empty_parent try_for_each write_at
  copy_from_parent current file = do
    found ← find_no_empty_parent current file
    (value, parents) ← lift_outcome (unwrap found)
    (if is_empty value || is_empty parents
        then pure tt
        else try_for_each (write_at file value) (reverse parents))

  -- Errors are logged only.
  unfoldable pub post_create : Place → Io State Error (Unit {0})
  unfolding copy_from_parent path_eq
  post_create c =
      if c.v2
      then pure tt
      else if path_eq c.path c.base
      then pure tt
      else (ignore (copy_from_parent c.path (codes "cpuset.cpus"))
          >> ignore (copy_from_parent c.path (codes "cpuset.mems")))
