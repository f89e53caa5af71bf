-- ===== src/Fs/Controller.antt =====
-- fs/mod.rs: the operations that every controller has (the trait `Controller`).
use cgroups_rs.Base.{ℕ, List, [], ◌∷◌, Bool, not, unwrap_or, if◌then◌else◌}
use cgroups_rs.Text.{Text, codes, trim}
use cgroups_rs.Number.{parse_u64, parse_uint}
use cgroups_rs.Number.Print.{print}
use cgroups_rs.Io.{Io, ◌>>=◌, ◌>>◌, pure, raise, map_err, default_to}
use cgroups_rs.Fs.Error.{Error, new, with_cause, os_error, write_failed, cgroup_version}
use cgroups_rs.Fs.Host.{Host, Place, push, open_for_read, open_for_write, write_value, read_text}

-- `line.trim().parse().unwrap_or(0u64)` of each line.
unfoldable pub pids_of_lines : List Text → List ℕ
unfolding trim parse_uint
pids_of_lines [] = []
pids_of_lines (l ∷ ls) = unwrap_or (parse_u64 (trim l)) 0 ∷ pids_of_lines ls

abbrev pub tasks_file : Place → Text
tasks_file c = if c.v2 then codes "cgroup.threads" else codes "tasks"

module _ (h : Host) where
  open h use {State, write_all, read_lines}

  -- The numbers in a file, none if it does not open.
  unfoldable pub read_pids : Text → Place → Io State Error (List ℕ)
  unfolding open_for_read pids_of_lines
  read_pids file c = default_to [] (
      open_for_read h c file >> λ s.
      let (ls, after) = read_lines (push c.path file) s in pure (pids_of_lines ls) after)

  abbrev pub procs : Place → Io State Error (List ℕ)
  procs = read_pids (codes "cgroup.procs")

  abbrev pub tasks : Place → Io State Error (List ℕ)
  tasks c = read_pids (tasks_file c) c

  unfoldable pub add_task : Place → ℕ → Io State Error (Unit {0})
  unfolding write_value print
  add_task c pid = write_value h c (tasks_file c) (print pid)

  unfoldable pub add_task_by_tgid : Place → ℕ → Io State Error (Unit {0})
  unfolding write_value print
  add_task_by_tgid c pid = write_value h c (codes "cgroup.procs") (print pid)

  unfoldable pub set_cgroup_type : Place → Text → Io State Error (Unit {0})
  unfolding write_value
  set_cgroup_type c cgroup_type =
      if not c.v2
      then raise (new cgroup_version)
      else write_value h c (codes "cgroup.type") cgroup_type

  unfoldable pub get_cgroup_type : Place → Io State Error Text
  unfolding read_text trim
  get_cgroup_type c =
      if not c.v2
      then raise (new cgroup_version)
      else (do s ← read_text h c (codes "cgroup.type") (codes "cgroup.type"); pure (trim s))

  -- The file holds 1 or 0, the error the word.
  unfoldable pub set_notify_on_release : Place → Bool → Io State Error (Unit {0})
  unfolding open_for_write
  set_notify_on_release c enable =
      let file = codes "notify_on_release" in
      let word = if enable then codes "true" else codes "false" in
      if c.v2
      then raise (new cgroup_version)
      else (open_for_write h c file
          >> map_err (λ e. with_cause (write_failed file word) (os_error e))
              (write_all (push c.path file) (if enable then codes "1" else codes "0")))

  unfoldable pub set_release_agent : Place → Text → Io State Error (Unit {0})
  unfolding write_value
  set_release_agent c path =
      if c.v2 then raise (new cgroup_version) else write_value h c (codes "release_agent") path
