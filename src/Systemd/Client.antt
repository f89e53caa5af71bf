-- ===== src/Systemd/Client.antt =====
-- systemd/dbus/client.rs: the client for one unit. It is in the state, beside the bus, so that what
-- an operation changed of it before an error stays changed.
pub mod Properties
pub mod Steps
pub mod Jobs
pub mod Pids
mod Tests
use cgroups_rs.Base.{
  ℕ, ◌%◌, ◌^◌, Bool, true, false, not, List, [], ◌∷◌, ◌++◌, Option, none, some, Result, ok, err,
  ok_or, if◌then◌else◌,
}
use cgroups_rs.Text.{Text, codes, text_eq}
use cgroups_rs.Dict.{Dict, get, insert}
use cgroups_rs.Io.{Io, Fault, ◌>>=◌, ◌>>◌, pure, raise, lift, map_err, or_else}
use cgroups_rs.Systemd.Props.{ZbusValues}
use cgroups_rs.Systemd.Dbus.{
  Bus, MoreValues, Appended, not_array, refused, appended, Signal, job_removed, unreadable, Ending,
  stream_closed, timed_out,
}
use cgroups_rs.Systemd.Dbus.Error.{
  Error, ZbusError, method_error, other, dbus, invalid_properties, job_failed, job_wait_timed_out,
  job_removed_signal_stream_closed,
}

pub record SystemdClient (z : ZbusValues) : Type 0 where
  pub unit : Text
  pub props : Dict z.Value

abbrev pub pids_key : Text
pids_key = codes "PIDs"

abbrev pub replace_mode : Text
replace_mode = codes "replace"

abbrev pub no_such_unit : Text
no_such_unit = codes "org.freedesktop.systemd1.NoSuchUnit"

-- The wait for the signal about a job. A result other than `done` is a failure.
unfoldable pub wait_for_job : Text → Text → List Signal → Ending → Result Error (Unit {0})
unfolding text_eq
wait_for_job unit job [] stream_closed = err job_removed_signal_stream_closed
wait_for_job unit job [] timed_out = err (job_wait_timed_out unit job)
wait_for_job unit job (unreadable e ∷ rest) ending = err (dbus e)
wait_for_job unit job (job_removed path result ∷ rest) ending =
    let later = wait_for_job unit job rest ending in
    if not (text_eq path job)
    then later
    else if text_eq result (codes "done")
    then ok tt
    else err (job_failed result)

module _ {S : Type 0} where
  -- `?` on a result of the D-Bus library.
  abbrev pub from_zbus : {A : Type 0} → Io S ZbusError A → Io S Error A
  from_zbus = map_err dbus

  -- `ignore_no_such_unit`, for a result without content: whether the unit is unknown.
  unfoldable pub ignore_no_such_unit : Io S ZbusError (Unit {0}) → Io S ZbusError Bool
  unfolding text_eq
  ignore_no_such_unit m = or_else (m >>= λ _. pure false) (λ e. elim e [
    | method_error name ↦ if text_eq name no_such_unit then pure true else raise (method_error name)
    | other ↦ raise other
  ])

module _ (z : ZbusValues) (more : MoreValues z) {S : Type 0} (bus : Bus S z) where
  open z use {Value, array}
  open bus use {
    connect, get_unit, stop_unit, reset_failed_unit, freeze_unit, thaw_unit,
    attach_processes_to_unit, set_unit_properties, receive_job_removed, subscribe,
    start_transient_unit, signals,
  }

  abbrev pub Client : Type 0 → Type 0
  Client A = Io (SystemdClient z × S) Error A

  -- What the bus does for the client.
  abbrev pub on_bus : {A : Type 0} → (SystemdClient z → Io S Error A) → Client A
  on_bus m (c, s) = let (r, t) = m c s in (r, (c, t))

  abbrev pub set_props : Dict Value → Client (Unit {0})
  set_props props (c, s) = (ok tt, (record c { props = props }, s))

  -- An error on the way is no unit.
  unfoldable pub exists : {E : Type 0} → SystemdClient z → Io S E Bool
  exists c = or_else (connect >> get_unit c.unit >> pure true) (λ e. pure false)

  abbrev pub with_appended : Text → Dict Value → Appended Value → Result Error (Dict Value)
  with_appended k props (appended w) = ok ((k, w) ∷ props)
  with_appended k props refused = err invalid_properties
  with_appended k props not_array = err invalid_properties

  abbrev pub behind : Text → Value → Result Error (Dict Value) → Result Error (Dict Value)
  behind k v (ok props) = ok ((k, v) ∷ props)
  behind k v (err e) = err e

  -- The first property of processes takes one more, or it is made.
  unfoldable pub with_pid : ℕ → Dict Value → Result Error (Dict Value)
  unfolding text_eq
  with_pid pid [] = ok ((pids_key, array (pid % 2 ^ 32 ∷ [])) ∷ [])
  with_pid pid ((k, v) ∷ props) =
      let later = behind k v (with_pid pid props) in
      if text_eq k pids_key then with_appended k props (more.append_uint64 pid v) else later

  unfoldable pub set_pid_prop : ℕ → Client (Unit {0})
  unfolding exists with_pid
  set_pid_prop pid = do
    there ← on_bus exists
    (if there
        then pure tt
        else (λ (c, s). (lift (with_pid pid c.props) >>= λ props. set_props props) (c, s)))

  unfoldable pub has_pids : Dict Value → Bool
  unfolding get
  has_pids props = elim (get pids_key props) [ none ↦ false | some v ↦ true ]

  -- The listener is there before the job.
  unfoldable pub start : Client (Unit {0})
  unfolding has_pids wait_for_job
  start = on_bus (λ c. if not (has_pids c.props) then raise invalid_properties else (do
    from_zbus connect
    from_zbus (receive_job_removed c.unit)
    from_zbus subscribe
    job ← from_zbus (start_transient_unit c.unit replace_mode c.props)
    (λ s. let ((heard, ending), t) = signals s in lift (wait_for_job c.unit job heard ending) t)))

  -- A unit that is still there may have failed.
  unfoldable pub stop : Client (Unit {0})
  unfolding ignore_no_such_unit exists
  stop = on_bus (λ c. do
    from_zbus connect
    _ ← from_zbus (ignore_no_such_unit (stop_unit c.unit replace_mode))
    there ← exists c
    (if there
        then (from_zbus (ignore_no_such_unit (reset_failed_unit c.unit)) >>= λ _. pure tt)
        else pure tt))

  abbrev pub merged :
      (Value → Option (Unit {0}) × Dict Value)
      → Dict Value
      → Option Value
      → Option (Unit {0}) × Dict Value
  merged next props none = (none, props)
  merged next props (some w) = next w

  -- Each property replaces the one with its key, or is new. A value that cannot be copied ends the
  -- loop.
  unfoldable pub merge : Dict Value → Dict Value → Option (Unit {0}) × Dict Value
  unfolding insert
  merge [] props = (some tt, props)
  merge ((k, v) ∷ new) props = merged (λ w. merge new (insert k w props)) props (more.try_clone v)

  -- The unit must be there for its properties to be sent.
  abbrev pub send : Dict Value → Client (Unit {0})
  send new = on_bus (λ c. exists c >>= λ there.
      if not there
      then pure tt
      else (from_zbus connect >> from_zbus (set_unit_properties c.unit new)))

  abbrev pub store : Dict Value → Option (Unit {0}) × Dict Value → Client (Unit {0})
  store new (done, props) = set_props props >> lift (ok_or done invalid_properties) >> send new

  unfoldable pub set_properties : Dict Value → Client (Unit {0})
  unfolding merge exists
  set_properties new (c, s) = store new (merge new c.props) (c, s)

  unfoldable pub freeze : Client (Unit {0})
  freeze = on_bus (λ c. from_zbus connect >> from_zbus (freeze_unit c.unit))

  unfoldable pub thaw : Client (Unit {0})
  thaw = on_bus (λ c. from_zbus connect >> from_zbus (thaw_unit c.unit))

  unfoldable pub add_process : ℕ → Text → Client (Unit {0})
  add_process pid subcgroup = on_bus (λ c.
      from_zbus connect
      >> from_zbus (attach_processes_to_unit c.unit subcgroup (pid % 2 ^ 32 ∷ [])))
