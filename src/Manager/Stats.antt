-- ===== src/Manager/Stats.antt =====
-- stats.rs and manager/fs.rs: the statistics of a container, put together from its controllers. What
-- cannot be read is left out or is its default.
pub mod Memory
pub mod Blkio
mod Tests
use cgroups_rs.Base.{ℕ, ℤ, pos, List, [], ◌∷◌, Option, none, some, unwrap_or}
use cgroups_rs.Text.{Text, codes}
use cgroups_rs.Text.Lines.{lines}
use cgroups_rs.Dict.{Dict, insert}
use cgroups_rs.Number.{parse_u64}
use cgroups_rs.Io.{Io, ◌>>=◌, pure, default_to, or_else}
use cgroups_rs.Fs.Host.{Host, Place}
use cgroups_rs.Fs.Controllers as Controllers
use cgroups_rs.Fs.MaxValue.{MaxValue, max, value}
use cgroups_rs.Fs.Cpu.{cpu}
use cgroups_rs.Fs.Cpuacct.{CpuAcct, cpuacct}
use cgroups_rs.Fs.Pid.{get_pid_current, get_pid_max}
use cgroups_rs.Fs.Hugetlb.{failcnt, usage_in_bytes, max_usage_in_bytes}
use cgroups_rs.Fs.Subsystem.{sizes_of}
use cgroups_rs.Manager.Error.{Error}
use cgroups_rs.Manager.Memory.{controller, from_fs}
use cgroups_rs.Manager.BlkioStat.{parse_value_from_tuples}
use cgroups_rs.Manager.Fs.{FsManager, its, v2}
use cgroups_rs.Manager.Stats.Memory.{MemoryCgroupStats, memory_cgroup_stats, to_option}
use cgroups_rs.Manager.Stats.Blkio.{BlkioCgroupStats, blkio_cgroup_stats}

pub record CpuAcctStats : Type 0 where
  pub user_usage : ℕ
  pub system_usage : ℕ
  pub total_usage : ℕ
  pub usage_percpu : List ℕ

pub record CpuThrottlingStats : Type 0 where
  pub periods : ℕ
  pub throttled_periods : ℕ
  pub throttled_time : ℕ

pub record CpuCgroupStats : Type 0 where
  pub cpu_acct : Option CpuAcctStats
  pub cpu_throttling : Option CpuThrottlingStats

pub record PidsCgroupStats : Type 0 where
  pub current : ℕ
  pub limit : ℤ

pub record HugeTlbStat : Type 0 where
  pub usage : ℕ
  pub max_usage : ℕ
  pub fail_cnt : ℕ

pub record CgroupStats : Type 0 where
  pub cpu : CpuCgroupStats
  pub memory : MemoryCgroupStats
  pub pids : PidsCgroupStats
  pub blkio : BlkioCgroupStats
  pub hugetlb : Dict HugeTlbStat

-- The lines that are a number.
unfoldable pub numbers_of_lines : List Text → List ℕ
numbers_of_lines [] = []
numbers_of_lines (l ∷ ls) =
    let rest = numbers_of_lines ls in elim (parse_u64 l) [ none ↦ rest | some n ↦ n ∷ rest ]

abbrev item : Text → Text → ℕ
item text name = unwrap_or (parse_value_from_tuples parse_u64 text name) 0

abbrev limit_of : MaxValue → ℤ
limit_of (value limit) = limit
limit_of max = pos 0

module _ (h : Host) where
  open h use {State}

  unfoldable pub cpu_acct_stats : Option Place → Io State Error CpuAcctStats
  unfolding cpuacct parse_value_from_tuples numbers_of_lines lines
  cpu_acct_stats place = do
    c ← controller h place
    acct ← from_fs (cpuacct h c)
    pure (record {
      user_usage = item acct.stat (codes "user");
      system_usage = item acct.stat (codes "system");
      total_usage = acct.usage;
      usage_percpu = numbers_of_lines (lines acct.usage_percpu);
    })

  unfoldable pub cpu_throttling_stats : Option Place → Io State Error CpuThrottlingStats
  unfolding cpu parse_value_from_tuples
  cpu_throttling_stats place = do
    c ← controller h place
    r ← from_fs (cpu h c)
    pure (record {
      periods = item r.stat (codes "nr_periods");
      throttled_periods = item r.stat (codes "nr_throttled");
      throttled_time = item r.stat (codes "throttled_time");
    })

  unfoldable pub cpu_cgroup_stats : FsManager → Io State Error CpuCgroupStats
  unfolding cpu_acct_stats cpu_throttling_stats
  cpu_cgroup_stats m = do
    cpu_acct ← to_option (cpu_acct_stats (its Controllers.cpu_acct m))
    cpu_throttling ← to_option (cpu_throttling_stats (its Controllers.cpu m))
    pure (record { cpu_acct = cpu_acct; cpu_throttling = cpu_throttling })

  unfoldable pub pids_cgroup_stats : Option Place → Io State Error PidsCgroupStats
  unfolding get_pid_current get_pid_max
  pids_cgroup_stats none = pure (record { current = 0; limit = pos 0 })
  pids_cgroup_stats (some c) = do
    current ← default_to 0 (from_fs (get_pid_current h c))
    limit ← default_to (pos 0) (from_fs (get_pid_max h c) >>= λ v. pure (limit_of v))
    pure (record { current = current; limit = limit })

  unfoldable pub huge_tlb_stats_of :
      Place → List Text → Dict HugeTlbStat → Io State Error (Dict HugeTlbStat)
  unfolding usage_in_bytes max_usage_in_bytes failcnt insert
  huge_tlb_stats_of c [] stats = pure stats
  huge_tlb_stats_of c (s ∷ sizes) stats = do
    usage ← default_to 0 (from_fs (usage_in_bytes h c s))
    max_usage ← default_to 0 (from_fs (max_usage_in_bytes h c s))
    fail_cnt ← default_to 0 (from_fs (failcnt h c s))
    huge_tlb_stats_of c sizes
        (insert s (record { usage = usage; max_usage = max_usage; fail_cnt = fail_cnt }) stats)

  unfoldable pub huge_tlb_cgroup_stats :
      List Text → Option Place → Io State Error (Dict HugeTlbStat)
  unfolding huge_tlb_stats_of
  huge_tlb_cgroup_stats sizes none = pure []
  huge_tlb_cgroup_stats sizes (some c) = huge_tlb_stats_of c sizes []

  unfoldable pub stats : FsManager → Io State Error CgroupStats
  unfolding cpu_cgroup_stats memory_cgroup_stats pids_cgroup_stats blkio_cgroup_stats
      huge_tlb_cgroup_stats
  stats m = do
    cpu ← cpu_cgroup_stats m
    memory ← memory_cgroup_stats h (its Controllers.mem m)
    pids ← pids_cgroup_stats (its Controllers.pids m)
    blkio ← blkio_cgroup_stats h (v2 m) (its Controllers.blk_io m)
    hugetlb ← huge_tlb_cgroup_stats (sizes_of m.cgroup.subsystems) (its Controllers.huge_tlb m)
    pure (record { cpu = cpu; memory = memory; pids = pids; blkio = blkio; hugetlb = hugetlb })
