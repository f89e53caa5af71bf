-- ===== src/Fs.antt =====
-- The crate's `fs` module: direct access to the cgroup file systems.
pub mod Error
pub mod Host
pub mod Devices
pub mod Cpuset
pub mod MaxValue
pub mod Read
pub mod Cpu
pub mod Stored
pub mod Memory
pub mod Keyed
pub mod Path
pub mod Update
pub mod Pid
pub mod Freezer
pub mod OneFile
pub mod OneTree
pub mod Blkio
pub mod CgroupPaths
pub mod Controller
pub mod Cgroup
pub mod Directories
pub mod Controllers
pub mod Subsystem
pub mod Hierarchies
pub mod NetPrio
pub mod NetCls
pub mod Rdma
pub mod Cpuacct
pub mod Hugetlb
pub mod Builder
