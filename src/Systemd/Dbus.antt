-- ===== src/Systemd/Dbus.antt =====
-- systemd/dbus: what the client asks of the message bus and of systemd behind it. Both are
-- parameters: their state and the outcome of each call are their own.
pub mod Error
use cgroups_rs.Base.{ℕ, List, Option}
use cgroups_rs.Text.{Text}
use cgroups_rs.Dict.{Dict}
use cgroups_rs.Io.{Io}
use cgroups_rs.Systemd.Dbus.Error.{ZbusError}
use cgroups_rs.Systemd.Props.{ZbusValues}

-- What `Array::append` makes of a value: it may be no array, or one of another element type.
pub data Appended (V : Type 0) : Type 0 where
  not_array refused : Appended V
  appended : V → Appended V

-- The other values of the D-Bus library that the client uses.
pub record MoreValues (z : ZbusValues) : Type 0 where
  -- A `Vec<u8>`, and a `u64` that is appended.
  pub bytes : List ℕ → z.Value
  pub append_uint64 : ℕ → z.Value → Appended z.Value
  pub try_clone : z.Value → Option z.Value

-- A `JobRemoved` signal, with the job and the result, or an error in its arguments.
pub data Signal : Type 0 where
  job_removed : Text → Text → Signal
  unreadable : ZbusError → Signal

-- How the listening ends if no signal ends it.
pub data Ending : Type 0 where
  stream_closed timed_out : Ending

pub record Bus (S : Type 0) (z : ZbusValues) : Type 0 where
  -- `Connection::system` and the making of a proxy
  pub connect : Io S ZbusError (Unit {0})
  pub get_unit : Text → Io S ZbusError (Unit {0})
  pub stop_unit : Text → Text → Io S ZbusError (Unit {0})
  pub reset_failed_unit : Text → Io S ZbusError (Unit {0})
  pub freeze_unit : Text → Io S ZbusError (Unit {0})
  pub thaw_unit : Text → Io S ZbusError (Unit {0})
  pub attach_processes_to_unit : Text → Text → List ℕ → Io S ZbusError (Unit {0})
  pub set_unit_properties : Text → Dict z.Value → Io S ZbusError (Unit {0})
  -- The listener for signals about a unit, `Subscribe`, and the job that starts a unit.
  pub receive_job_removed : Text → Io S ZbusError (Unit {0})
  pub subscribe : Io S ZbusError (Unit {0})
  pub start_transient_unit : Text → Text → Dict z.Value → Io S ZbusError Text
  -- The signals that arrive in time, in order, and what comes behind them.
  pub signals : S → (List Signal × Ending) × S
