-- ===== src/Fs/Cgroup/Apply.antt =====
-- fs/mod.rs and fs/cgroup.rs: the resources of a group, applied to each of its subsystems.
use cgroups_rs.Base.{List}
use cgroups_rs.Io.{Io, pure, try_for_each}
use cgroups_rs.Fs.Error.{Error}
use cgroups_rs.Fs.Host.{Host}
use cgroups_rs.Fs.Subsystem.{Subsystem}
use cgroups_rs.Fs.Cgroup.{Cgroup}
use cgroups_rs.Fs.Memory.Limits.{MemoryResources}
use cgroups_rs.Fs.Memory.Limits as Memory
use cgroups_rs.Fs.Pid.{PidResources}
use cgroups_rs.Fs.Pid as Pid
use cgroups_rs.Fs.Cpu.{CpuResources}
use cgroups_rs.Fs.Cpu as Cpu
use cgroups_rs.Fs.Cpuset.Settings as Cpuset
use cgroups_rs.Fs.Devices.{DeviceResource}
use cgroups_rs.Fs.Devices.Control as Devices
use cgroups_rs.Fs.NetPrio.{NetworkResources}
use cgroups_rs.Fs.NetPrio as NetPrio
use cgroups_rs.Fs.NetCls as NetCls
use cgroups_rs.Fs.Hugetlb.{HugePageResources}
use cgroups_rs.Fs.Hugetlb as Hugetlb
use cgroups_rs.Fs.Blkio.Settings.{BlkIoResources}
use cgroups_rs.Fs.Blkio.Settings as Blkio

pub record Resources : Type 0 where
  pub memory : MemoryResources
  pub pid : PidResources
  pub cpu : CpuResources
  pub devices : List DeviceResource
  pub network : NetworkResources
  pub hugepages : HugePageResources
  pub blkio : BlkIoResources

module _ (h : Host) where
  open h use {State}

  -- `e.to_controller().apply(res)`: each controller takes its part. Those without settings do
  -- nothing.
  unfoldable pub apply_to : Resources → Subsystem → Io State Error (Unit {0})
  unfolding Memory.apply Pid.apply Cpu.apply Cpuset.apply Devices.apply NetPrio.apply NetCls.apply
      Hugetlb.apply Blkio.apply
  apply_to res (Subsystem.pid c) = Pid.apply h c res.pid
  apply_to res (Subsystem.mem c) = Memory.apply h c res.memory
  apply_to res (Subsystem.cpu_set c) = Cpuset.apply h c res.cpu
  apply_to res (Subsystem.cpu_acct c) = pure tt
  apply_to res (Subsystem.cpu c) = Cpu.apply h c res.cpu
  apply_to res (Subsystem.devices c) = Devices.apply h c res.devices
  apply_to res (Subsystem.freezer c) = pure tt
  apply_to res (Subsystem.net_cls c) = NetCls.apply h c res.network
  apply_to res (Subsystem.blk_io c) = Blkio.apply h c res.blkio
  apply_to res (Subsystem.perf_event c) = pure tt
  apply_to res (Subsystem.net_prio c) = NetPrio.apply h c res.network
  apply_to res (Subsystem.huge_tlb sizes c) = Hugetlb.apply h c res.hugepages
  apply_to res (Subsystem.rdma c) = pure tt
  apply_to res (Subsystem.systemd c) = pure tt

  unfoldable pub apply : Cgroup → Resources → Io State Error (Unit {0})
  unfolding apply_to try_for_each
  apply g res = try_for_each (apply_to res) g.subsystems
