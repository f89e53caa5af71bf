-- ===== src/Systemd.antt =====
-- The crate's `systemd` module: properties of systemd units, and unit names.
pub mod Error
pub mod Cpuset
pub mod Slice
pub mod Props
pub mod Limits
pub mod Dbus
pub mod Client
