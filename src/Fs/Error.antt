-- ===== src/Fs/Error.antt =====
-- fs/error.rs: the kinds of error, and an error with its cause. The causes are the two kinds of
-- error that the program wraps: of the operating system, by its number, and of parsing a number.
use cgroups_rs.Base.{ℕ, Result, Option, none, some}
use cgroups_rs.Text.{Text}

pub data ErrorKind : Type 0 where
  fs_error : ErrorKind
  common : Text → ErrorKind
  write_failed : Text → Text → ErrorKind
  read_failed : Text → ErrorKind
  remove_failed parse_error invalid_operation invalid_path invalid_bytes_size : ErrorKind
  specified_controllers cgroup_version cgroup_mode subsystems_empty other : ErrorKind

pub data Cause : Type 0 where
  os_error : ℕ → Cause
  parse_int_error : Cause

pub record Error : Type 0 where
  pub kind : ErrorKind
  pub cause : Option Cause

-- `Error::new`
abbrev pub new : ErrorKind → Error
new k = record { kind = k; cause = none }

-- `Error::with_cause`
abbrev pub with_cause : ErrorKind → Cause → Error
with_cause k c = record { kind = k; cause = some c }

-- `Error::from_string`
abbrev pub from_string : Text → Error
from_string s = record { kind = common s; cause = none }

-- `fs::error::Result`
abbrev pub FsResult : Type 0 → Type 0
FsResult A = Result Error A
