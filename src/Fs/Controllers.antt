-- ===== src/Fs/Controllers.antt =====
-- fs/mod.rs: the kinds of controllers (`Controllers`), with the names that the kernel has for them in
-- version 1.
use cgroups_rs.Text.{Text, codes}

pub data Controllers : Type 0 where
  pids mem cpu_set cpu_acct cpu devices freezer net_cls : Controllers
  blk_io perf_event net_prio huge_tlb rdma systemd : Controllers

-- `to_string`
abbrev pub name_of : Controllers → Text
name_of pids = codes "pids"
name_of mem = codes "memory"
name_of cpu_set = codes "cpuset"
name_of cpu_acct = codes "cpuacct"
name_of cpu = codes "cpu"
name_of devices = codes "devices"
name_of freezer = codes "freezer"
name_of net_cls = codes "net_cls"
name_of blk_io = codes "blkio"
name_of perf_event = codes "perf_event"
name_of net_prio = codes "net_prio"
name_of huge_tlb = codes "hugetlb"
name_of rdma = codes "rdma"
name_of systemd = codes "name=systemd"
