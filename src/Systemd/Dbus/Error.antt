-- ===== src/Systemd/Dbus/Error.antt =====
-- systemd/dbus/error.rs
use cgroups_rs.Text.{Text}

-- The errors of the D-Bus library: the name of a method's error is kept.
pub data ZbusError : Type 0 where
  method_error : Text → ZbusError
  other : ZbusError

pub data Error : Type 0 where
  invalid_properties job_removed_signal_stream_closed : Error
  job_failed : Text → Error
  -- The unit and the job.
  job_wait_timed_out : Text → Text → Error
  dbus : ZbusError → Error
