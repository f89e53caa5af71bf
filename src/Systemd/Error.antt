-- ===== src/Systemd/Error.antt =====
-- systemd/error.rs
use cgroups_rs.Base.{Result}

pub data Error : Type 0 where
  invalid_argument cgroups_v1_not_supported : Error

abbrev pub SystemdResult : Type 0 → Type 0
SystemdResult A = Result Error A
