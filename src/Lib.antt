-- ===== src/Lib.antt =====
-- A model of cgroups-rs, a library that manages control groups of the Linux kernel, with theorems
-- about it. Paths below are from the repository's root.
--
-- The program has three layers. `src/fs` reads and writes the files of the cgroup file systems, one
-- controller to a module, and makes and removes the directories that are the groups. `src/systemd`
-- makes names and properties of systemd units and speaks to systemd over D-Bus. `src/manager` stands
-- over both and takes the resources of the OCI runtime specification: one manager works on the files,
-- the other through systemd, with the first behind it.
--
-- The files:
--   Base    results, options, lists measured by native numbers, signed integers (Rust's i64)
--   Text    `str` as a list of code points, with the functions of `str` that the program calls
--   Number  `parse` and `to_string` of the integer types, with their ranges
--   Dict    `HashMap` with text keys as an association list; where the program walks through a map,
--           the model has the order of the list, one of those that the program may see
--   Io      code on the state of the operating system that may fail or panic. What was done before
--           an error stays done. Io.Answers: code that leaves the state as it is. Io.Loops: loops as
--           loops over lists put together
--   Fs.Host       the operating system's files as a parameter (the record `Host`: create, write, open,
--                 read), and `open_path`, `set`, `get` of src/fs/mod.rs
--   Fs.Directories   its directories as a parameter, and `remove_dir`, `exists`, `create`, `delete` of
--                 src/fs/mod.rs
--   Fs.Path       the parent and the comparison of paths (std::path)
--   Fs.Stored     a file that keeps what is written to it, as hypotheses on the host
--   Fs.MaxValue, Fs.Read, Fs.Keyed   the readers of src/fs/mod.rs
--   Fs.Error      src/fs/error.rs
--   Fs.Controllers, Fs.Subsystem   the names of the controllers and the subsystems (src/fs/mod.rs)
--   Fs.Hierarchies, Fs.CgroupPaths   src/fs/hierarchies.rs, and the paths of src/fs/cgroup.rs
--   Fs.Controller   tasks and types of a group, on one controller (src/fs/mod.rs)
--   Fs.Cgroup     src/fs/cgroup.rs: tasks and release; Load (handles, removal of tasks, `kill`), Create
--                 (`create`, `new`, `delete`, the controllers handed down in version 2), Apply
--                 (the resources of all its subsystems)
--   Fs.Builder    src/fs/cgroup_builder.rs
--   Fs.Devices    src/fs/devices.rs; Fs.Devices.Control has the controller's operations
--   Fs.Cpuset     src/fs/cpuset.rs; Parent has the values that a new group takes over, Settings the rest
--   Fs.Cpu        src/fs/cpu.rs; Fs.Cpu.Bandwidth is about `cpu.max`
--   Fs.Memory     src/fs/memory.rs: Stat and Numa (parsers), Bounds (`set_mem`, `get_mem`), Usage (the
--                 statistics), Limits (setters, `apply`), Kernel (what the kernel does, as hypotheses)
--   Fs.Blkio      src/fs/blkio.rs: the parsers; ServiceText, Statistics, Settings, Writes (`apply` as
--                 its writes)
--   Fs.Pid, Fs.Freezer, Fs.NetPrio, Fs.NetCls, Fs.Rdma, Fs.Cpuacct, Fs.Hugetlb   the files of src/fs
--                 with these names
--   Fs.OneFile, Fs.OneTree   hosts to run the operations on
--   Systemd.Cpuset   src/systemd/cpuset.rs; the crate `bit_vec` is the parameter `BitVec`
--   Systemd.Slice    src/systemd/utils.rs
--   Systemd.Props    the builder of src/systemd/props.rs; the D-Bus values are the parameter `ZbusValues`
--   Systemd.Limits   src/systemd/cpu.rs, src/systemd/memory.rs, src/systemd/pids.rs
--   Systemd.Dbus     the message bus and systemd as the parameter `Bus`; src/systemd/dbus/error.rs
--   Systemd.Client   src/systemd/dbus/client.rs. The client is in the state, beside the bus: a
--                    `&mut self` that failed keeps what it changed. Steps has all that a caller can
--                    do with it as a relation
--   Manager.Conv     src/manager/conv.rs
--   Manager.Memory, Manager.Limits, Manager.Resources   the resources of src/manager/fs.rs
--   Manager.Fs       the manager of src/manager/fs.rs
--   Manager.Stats, Manager.BlkioStat   its statistics, and src/stats.rs
--   Manager.Proc     its reading of /proc/self/cgroup and /proc/self/mountinfo
--   Manager.Systemd  src/manager/systemd.rs
--
-- A controller is its `Place`: base, path, version. A function keeps its name, with the host and the
-- place in front; `self.open_path(f, true)` with a write is `write_value`, and with a read
-- `read_text`. `update!` and `update_and_test!` are `update` (in Io) and `update_and_test` (in
-- Fs.Update). A function of the program whose branches return early has a definition for the rest
-- behind the branch. A controller that a group may lack (`self.controller()`) is an option. A function
-- that pushes to a vector of properties returns the properties that it pushes.
--
-- Fuel: the loop that grows a bit vector runs on fuel, right + 1 rounds for a CPU number `right`; each
-- round adds eight bits, so that is enough, and the theorem on masks would not hold otherwise. The
-- walks up the directories (`find_no_empty_parent`, `path_stack`) have one round more than the path
-- has characters, and a parent is shorter. `remove_dir` has the depth of the stack, whose end is a
-- panic; more than the depth of the tree is enough. The hexadecimal digits of a class are 8 at most.
-- Sums of limits are taken on unbounded integers where the theorem's ranges exclude an overflow; a
-- product that wraps in 64 bits has its remainder written out. The subtraction in `parse_numa_stat`
-- panics below zero, as with overflow checks. The signals that a start of a unit hears in time are a
-- list with what ends it, the time limit or the end of the stream.
--
-- Not modelled: threads of out-of-memory events, the generated D-Bus proxy (its calls are the
-- parameter `Bus`), text of error messages, file systems' own errors (they are the host's), logging,
-- and the list of huge page sizes, which the program prints by floating-point division and which is
-- a parameter.
pub mod Base
pub mod Text
pub mod Number
pub mod Dict
pub mod Io
pub mod Fs
pub mod Systemd
pub mod Manager
