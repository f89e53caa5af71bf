-- ===== src/Manager.antt =====
-- The crate's `manager` module: one interface over the cgroup file systems and systemd.
pub mod Error
pub mod Conv
pub mod Memory
pub mod Proc
pub mod Limits
pub mod BlkioStat
pub mod Resources
pub mod Fs
pub mod Systemd
pub mod Stats
