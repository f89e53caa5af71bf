-- ===== src/Fs/Memory.antt =====
-- fs/memory.rs: the limits of a control group's memory and its statistics.
pub mod Stat
pub mod Numa
pub mod Bounds
pub mod Usage
pub mod Limits
pub mod Kernel
