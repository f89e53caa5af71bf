-- ===== src/Fs/Pid.antt =====
-- fs/pid.rs: the limit on the number of processes.
pub mod Limit
mod Tests
use cgroups_rs.Base.{ℕ, Bool, true, false, List, [], ◌∷◌, ◌++◌, Option, none, some, eq_ℤ, get_elem?}
use cgroups_rs.Text.{Text, codes}
use cgroups_rs.Text.Split.{split_whitespace}
use cgroups_rs.Number.{parse_u64, parse_uint}
use cgroups_rs.Number.Signed.{print_int}
use cgroups_rs.Io.{Io, ◌>>=◌, ◌>>◌, raise, lift, map_err}
use cgroups_rs.Fs.Error.{Error, new, with_cause, os_error, parse_error, write_failed}
use cgroups_rs.Fs.Host.{Host, Place, push, open_for_write, read_text}
use cgroups_rs.Fs.MaxValue.{MaxValue, max, value, print_max_value, parse_max_value}
use cgroups_rs.Fs.Read.{parsed, read_from, read_u64_from}
use cgroups_rs.Fs.Update.{update_and_test}

pub record PidResources : Type 0 where
  pub maximum_number_of_processes : Option MaxValue

-- `==` of `MaxValue`
abbrev pub same_max : MaxValue → MaxValue → Bool
same_max max max = true
same_max max (value b) = false
same_max (value a) max = false
same_max (value a) (value b) = eq_ℤ a b

-- The debug format.
abbrev debug : MaxValue → Text
debug max = codes "Max"
debug (value z) = codes "Value(" ++ (print_int z ++ b')' ∷ [])

module _ (h : Host) where
  open h use {State, write_all}

  -- The number behind the first word.
  abbrev second_word : Option Text → Io State Error ℕ
  second_word none = raise (new parse_error)
  second_word (some elem) = parsed (parse_u64 elem)

  unfoldable pub get_pid_events : Place → Io State Error ℕ
  unfolding read_text split_whitespace parse_uint
  get_pid_events c = do
    s ← read_text h c (codes "pids.events") (codes "pids.events")
    second_word (get_elem? (split_whitespace s) 1)

  unfoldable pub get_pid_current : Place → Io State Error ℕ
  unfolding read_from
  get_pid_current c = read_u64_from h c (codes "pids.current")

  unfoldable pub get_pid_max : Place → Io State Error MaxValue
  unfolding read_text parse_max_value
  get_pid_max c = do
    s ← read_text h c (codes "pids.max") (codes "pids.max")
    lift (parse_max_value s)

  unfoldable pub set_pid_max : Place → MaxValue → Io State Error (Unit {0})
  unfolding open_for_write print_max_value
  set_pid_max c max_pid =
      open_for_write h c (codes "pids.max")
      >> map_err (λ e. with_cause (write_failed (codes "pids.max") (debug max_pid)) (os_error e))
          (write_all (push c.path (codes "pids.max")) (print_max_value max_pid))

  -- `ControllerInternal::apply`
  unfoldable pub apply : Place → PidResources → Io State Error (Unit {0})
  unfolding set_pid_max get_pid_max
  apply c res =
      update_and_test same_max (set_pid_max c) res.maximum_number_of_processes (get_pid_max c)
