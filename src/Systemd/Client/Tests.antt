-- ===== src/Systemd/Client/Tests.antt =====
-- The client of one unit, on a bus that knows which units are there.
use cgroups_rs.Base.{ℕ, ◌≡◌, refl, Bool, true, false, List, [], ◌∷◌, some, ok, err, if◌then◌else◌}
use cgroups_rs.Text.{Text, codes, text_eq}
use cgroups_rs.Dict.{Dict, get, insert}
use cgroups_rs.Io.{error, lift}
use cgroups_rs.Systemd.Props.{ZbusValues, default_cgroup, build}
use cgroups_rs.Systemd.Dbus.{
  Bus, MoreValues, Appended, not_array, refused, Signal, job_removed, Ending, timed_out,
}
use cgroups_rs.Systemd.Dbus.Error.{invalid_properties, other, method_error}
use cgroups_rs.Systemd.Client.{
  SystemdClient, pids_key, no_such_unit, exists, has_pids, set_pid_prop, start, stop,
  set_properties,
}
use cgroups_rs.Systemd.Client.Properties.{IsKeyed, changed, set_properties-get}
use cgroups_rs.Systemd.Client.Steps.{
  here, after, sets_pid_prop, starts, stops, run, Reaches-IsKeyed,
}
use cgroups_rs.Systemd.Client.Jobs.{of_result, of_ending, start-job}
use cgroups_rs.Systemd.Client.Pids.{with_one, set_pid_prop-again}

-- The values as trees.
data Tree : Type 0 where
  bool : Bool → Tree
  str : Text → Tree
  uint64 : ℕ → Tree
  array bytes : List ℕ → Tree

abbrev trees : ZbusValues
trees = record { Value = Tree; bool = bool; str = str; uint64 = uint64; array = array }

abbrev no_u64 : ℕ → Tree → Appended Tree
no_u64 n (array ns) = refused
no_u64 n (bytes ns) = refused
no_u64 n _ = not_array

abbrev more : MoreValues trees
more = record { bytes = bytes; append_uint64 = no_u64; try_clone = λ v. some v }

-- The state is the list of units that are there.
abbrev known : Text → List Text → Bool
known u [] = false
known u (v ∷ s) = if text_eq u v then true else known u s

abbrev job : Text
job = codes "/job/2"

abbrev heard : List Signal × Ending
heard =
    (job_removed (codes "/job/1") (codes "failed") ∷ job_removed job (codes "done") ∷ [], timed_out)

abbrev units : Bus (List Text) trees
units = record {
  connect = λ s. (ok tt, s);
  get_unit = λ u s. (if known u s then ok tt else err (error (method_error no_such_unit)), s);
  stop_unit =
      λ u mode s. (if known u s then ok tt else err (error (method_error no_such_unit)), []);
  reset_failed_unit = λ u s. (ok tt, s);
  freeze_unit = λ u s. (ok tt, s);
  thaw_unit = λ u s. (ok tt, s);
  attach_processes_to_unit = λ u sub ps s. (ok tt, s);
  set_unit_properties = λ u ps s. (err (error other), s);
  receive_job_removed = λ u s. (ok tt, s);
  subscribe = λ s. (ok tt, s);
  start_transient_unit = λ u mode ps s. (ok job, u ∷ s);
  signals = λ s. (heard, s);
}

abbrev unit : Text
unit = codes "a.scope"

abbrev new_client : SystemdClient trees
new_client = record {
  unit = unit;
  props = build trees true (default_cgroup (codes "a.slice") unit);
}

abbrev client_of_one : SystemdClient trees
client_of_one = record { unit = unit; props = (pids_key, array (7 ∷ [])) ∷ [] }

abbrev limits : Dict Tree
limits = (codes "TasksMax", uint64 5) ∷ (codes "TasksMax", uint64 6) ∷ []

set_properties-get_example :
    ((set_properties trees more units limits (client_of_one, unit ∷ [])).1.0.unit ≡ unit)
    × ((k : Text)
        → get k (set_properties trees more units limits (client_of_one, unit ∷ [])).1.0.props
          ≡ changed k limits (get k client_of_one.props))
set_properties-get_example =
    set_properties-get trees more units (λ v. refl) limits client_of_one (unit ∷ [])

-- A first process, a start and a stop.
Reaches-IsKeyed_example : (unit ≡ unit) × IsKeyed (with_one trees more units 7 new_client).props
unfolding set_pid_prop start stop build default_cgroup get insert text_eq run
Reaches-IsKeyed_example =
    Reaches-IsKeyed trees more units true (codes "a.slice") unit []
      (with_one trees more units 7 new_client) []
      (after stops (after starts (after (sets_pid_prop 7) (here _) refl) refl) refl)

start-job_example :
    ((result : Text) (rest : List Signal)
      → units.signals (unit ∷ []) ≡ (
        (job_removed (codes "/job/1") (codes "failed") ∷ job_removed job result ∷ rest, timed_out),
        unit ∷ [],
      )
      → start trees more units (client_of_one, [])
        ≡ lift (of_result result) (client_of_one, unit ∷ []))
    × (units.signals (unit ∷ [])
          ≡ ((job_removed (codes "/job/1") (codes "failed") ∷ [], timed_out), unit ∷ [])
        → start trees more units (client_of_one, [])
          ≡ lift (of_ending unit job timed_out) (client_of_one, unit ∷ []))
unfolding get has_pids text_eq
start-job_example =
    start-job trees more units client_of_one job [] (unit ∷ []) (unit ∷ [])
      (job_removed (codes "/job/1") (codes "failed") ∷ []) timed_out refl
      ([], [], [], refl, refl, refl, refl) (refl, tt)

set_pid_prop-again_test :
    (set_pid_prop trees more units 7 (new_client, [])
      ≡ (ok tt, (with_one trees more units 7 new_client, [])))
    × (set_pid_prop trees more units 8 (with_one trees more units 7 new_client, [])
        ≡ (err (error invalid_properties), (with_one trees more units 7 new_client, [])))
unfolding exists get build default_cgroup
set_pid_prop-again_test =
    set_pid_prop-again trees more units 7 8 new_client [] [] [] (λ n ns. refl) refl refl refl

start_test : start trees more units (client_of_one, []) ≡ (ok tt, (client_of_one, unit ∷ []))
unfolding start
start_test = refl

-- A unit that is not there is stopped without an error.
stop_test : stop trees more units (client_of_one, []) ≡ (ok tt, (client_of_one, []))
unfolding stop
stop_test = refl
