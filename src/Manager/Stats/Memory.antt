-- ===== src/Manager/Stats/Memory.antt =====
-- stats.rs and manager/fs.rs: the memory statistics of a container.
use cgroups_rs.Base.{ℕ, ℤ, pos, Bool, false, Option, none, some, ◌==◌}
use cgroups_rs.Io.{Io, ◌>>=◌, pure, default_to}
use cgroups_rs.Fs.Host.{Host, Place}
use cgroups_rs.Fs.Memory.Usage.{Memory, memory_stat, memswap, kmem_stat}
use cgroups_rs.Manager.Error.{Error}
use cgroups_rs.Manager.Memory.{controller, from_fs}

pub record MemoryStats : Type 0 where
  pub usage : ℕ
  pub max_usage : ℕ
  pub limit : ℤ
  pub fail_cnt : ℕ

pub record MemoryCgroupStats : Type 0 where
  pub memory : Option MemoryStats
  pub memory_swap : Option MemoryStats
  pub kernel_memory : Option MemoryStats
  pub use_hierarchy : Bool
  pub cache : ℕ
  pub rss : ℕ
  pub rss_huge : ℕ
  pub shmem : ℕ
  pub mapped_file : ℕ
  pub dirty : ℕ
  pub writeback : ℕ
  pub swap : ℕ
  pub pgpgin : ℕ
  pub pgpgout : ℕ
  pub pgfault : ℕ
  pub pgmajfault : ℕ
  pub inactive_anon : ℕ
  pub active_anon : ℕ
  pub inactive_file : ℕ
  pub active_file : ℕ
  pub unevictable : ℕ
  pub hierarchical_memory_limit : ℤ
  pub hierarchical_memsw_limit : ℤ
  pub total_cache : ℕ
  pub total_rss : ℕ
  pub total_rss_huge : ℕ
  pub total_shmem : ℕ
  pub total_mapped_file : ℕ
  pub total_dirty : ℕ
  pub total_writeback : ℕ
  pub total_swap : ℕ
  pub total_pgpgin : ℕ
  pub total_pgpgout : ℕ
  pub total_pgfault : ℕ
  pub total_pgmajfault : ℕ
  pub total_inactive_anon : ℕ
  pub total_active_anon : ℕ
  pub total_inactive_file : ℕ
  pub total_active_file : ℕ
  pub total_unevictable : ℕ

abbrev of_controllers :
    Option MemoryStats → Option MemoryStats → Option MemoryStats → MemoryCgroupStats
of_controllers memory memory_swap kernel_memory = record {
  memory = memory;
  memory_swap = memory_swap;
  kernel_memory = kernel_memory;
  use_hierarchy = false;
  cache = 0;
  rss = 0;
  rss_huge = 0;
  shmem = 0;
  mapped_file = 0;
  dirty = 0;
  writeback = 0;
  swap = 0;
  pgpgin = 0;
  pgpgout = 0;
  pgfault = 0;
  pgmajfault = 0;
  inactive_anon = 0;
  active_anon = 0;
  inactive_file = 0;
  active_file = 0;
  unevictable = 0;
  hierarchical_memory_limit = pos 0;
  hierarchical_memsw_limit = pos 0;
  total_cache = 0;
  total_rss = 0;
  total_rss_huge = 0;
  total_shmem = 0;
  total_mapped_file = 0;
  total_dirty = 0;
  total_writeback = 0;
  total_swap = 0;
  total_pgpgin = 0;
  total_pgpgout = 0;
  total_pgfault = 0;
  total_pgmajfault = 0;
  total_inactive_anon = 0;
  total_active_anon = 0;
  total_inactive_file = 0;
  total_active_file = 0;
  total_unevictable = 0;
}

-- The items of the file `memory.stat`.
unfoldable pub with_stat : MemoryCgroupStats → Option Memory → MemoryCgroupStats
with_stat stats none = stats
with_stat stats (some memstats) = record stats {
  use_hierarchy = memstats.use_hierarchy == 1;
  cache = memstats.stat.cache;
  rss = memstats.stat.rss;
  rss_huge = memstats.stat.rss_huge;
  shmem = memstats.stat.shmem;
  mapped_file = memstats.stat.mapped_file;
  dirty = memstats.stat.dirty;
  writeback = memstats.stat.writeback;
  swap = memstats.stat.swap;
  pgpgin = memstats.stat.pgpgin;
  pgpgout = memstats.stat.pgpgout;
  pgfault = memstats.stat.pgfault;
  pgmajfault = memstats.stat.pgmajfault;
  inactive_anon = memstats.stat.inactive_anon;
  active_anon = memstats.stat.active_anon;
  inactive_file = memstats.stat.inactive_file;
  active_file = memstats.stat.active_file;
  unevictable = memstats.stat.unevictable;
  hierarchical_memory_limit = memstats.stat.hierarchical_memory_limit;
  hierarchical_memsw_limit = memstats.stat.hierarchical_memsw_limit;
  total_cache = memstats.stat.total_cache;
  total_rss = memstats.stat.total_rss;
  total_rss_huge = memstats.stat.total_rss_huge;
  total_shmem = memstats.stat.total_shmem;
  total_mapped_file = memstats.stat.total_mapped_file;
  total_dirty = memstats.stat.total_dirty;
  total_writeback = memstats.stat.total_writeback;
  total_swap = memstats.stat.total_swap;
  total_pgpgin = memstats.stat.total_pgpgin;
  total_pgpgout = memstats.stat.total_pgpgout;
  total_pgfault = memstats.stat.total_pgfault;
  total_pgmajfault = memstats.stat.total_pgmajfault;
  total_inactive_anon = memstats.stat.total_inactive_anon;
  total_active_anon = memstats.stat.total_active_anon;
  total_inactive_file = memstats.stat.total_inactive_file;
  total_active_file = memstats.stat.total_active_file;
  total_unevictable = memstats.stat.total_unevictable;
}

module _ {S E A : Type 0} where
  -- `.ok()`
  abbrev pub to_option : Io S E A → Io S E (Option A)
  to_option m = default_to none (m >>= λ a. pure (some a))

module _ (h : Host) where
  open h use {State}

  unfoldable pub memory_stats : Option Place → Io State Error MemoryStats
  unfolding memory_stat
  memory_stats place = do
    c ← controller h place
    m ← from_fs (memory_stat h c)
    pure (record {
      usage = m.usage_in_bytes;
      max_usage = m.max_usage_in_bytes;
      limit = m.limit_in_bytes;
      fail_cnt = m.fail_cnt;
    })

  unfoldable pub memory_swap_stats : Option Place → Io State Error MemoryStats
  unfolding memswap
  memory_swap_stats place = do
    c ← controller h place
    m ← from_fs (memswap h c)
    pure (record {
      usage = m.usage_in_bytes;
      max_usage = m.max_usage_in_bytes;
      limit = m.limit_in_bytes;
      fail_cnt = m.fail_cnt;
    })

  unfoldable pub kernel_memory_stats : Option Place → Io State Error MemoryStats
  unfolding kmem_stat
  kernel_memory_stats place = do
    c ← controller h place
    m ← from_fs (kmem_stat h c)
    pure (record {
      usage = m.usage_in_bytes;
      max_usage = m.max_usage_in_bytes;
      limit = m.limit_in_bytes;
      fail_cnt = m.fail_cnt;
    })

  unfoldable pub memory_cgroup_stats : Option Place → Io State Error MemoryCgroupStats
  unfolding memory_stats memory_swap_stats kernel_memory_stats memory_stat with_stat
  memory_cgroup_stats place = do
    memory ← to_option (memory_stats place)
    memory_swap ← to_option (memory_swap_stats place)
    kernel_memory ← to_option (kernel_memory_stats place)
    stat ← to_option (controller h place >>= λ c. from_fs (memory_stat h c))
    pure (with_stat (of_controllers memory memory_swap kernel_memory) stat)
