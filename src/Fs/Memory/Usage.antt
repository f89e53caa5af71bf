-- ===== src/Fs/Memory/Usage.antt =====
-- fs/memory.rs: the statistics. A file that cannot be read counts as its default.
use cgroups_rs.Base.{
  ℕ, ℤ, pos, minus_one, [], Option, some, if◌then◌else◌, as_u64, unwrap_or, unwrap, Outcome,
  returns,
}
use cgroups_rs.Text.{Text, codes}
use cgroups_rs.Io.{Io, ◌>>=◌, pure, default_to, lift_outcome}
use cgroups_rs.Dict.{get}
use cgroups_rs.Fs.Error.{Error}
use cgroups_rs.Fs.Host.{Host, Place, set}
use cgroups_rs.Fs.MaxValue.{MaxValue, max, value, to_i64}
use cgroups_rs.Fs.Read.{read_from, read_u64_from, read_i64_from, read_string_from}
use cgroups_rs.Fs.Keyed.{flat_keyed_to_hashmap}
use cgroups_rs.Fs.Memory.Stat.{
  OomControl, parse_oom_control, default_oom_control, MemoryStat, parse_memory_stat,
  default_memory_stat,
}
use cgroups_rs.Fs.Memory.Numa.{NumaStat, parse_numa_stat, default_numa_stat}
use cgroups_rs.Fs.Memory.Bounds.{get_mem}

pub record MemSwap : Type 0 where
  pub fail_cnt : ℕ
  pub limit_in_bytes : ℤ
  pub usage_in_bytes : ℕ
  pub max_usage_in_bytes : ℕ

pub record Tcp : Type 0 where
  pub fail_cnt : ℕ
  pub limit_in_bytes : ℤ
  pub usage_in_bytes : ℕ
  pub max_usage_in_bytes : ℕ

pub record Kmem : Type 0 where
  pub fail_cnt : ℕ
  pub limit_in_bytes : ℤ
  pub usage_in_bytes : ℕ
  pub max_usage_in_bytes : ℕ
  pub slabinfo : Text

pub record Memory : Type 0 where
  pub fail_cnt : ℕ
  pub limit_in_bytes : ℤ
  pub usage_in_bytes : ℕ
  pub max_usage_in_bytes : ℕ
  pub move_charge_at_immigrate : ℕ
  pub numa_stat : NumaStat
  pub oom_control : OomControl
  pub soft_limit_in_bytes : ℤ
  pub stat : MemoryStat
  pub swappiness : ℕ
  pub use_hierarchy : ℕ

module _ (h : Host) where
  open h use {State}

  -- `open_path(file, false).and_then(read_u64_from).unwrap_or(0)`
  abbrev u64_or_zero : Place → Text → Io State Error ℕ
  u64_or_zero c file = default_to 0 (read_u64_from h c file)

  abbrev i64_or : ℤ → Place → Text → Io State Error ℤ
  i64_or d c file = default_to d (read_i64_from h c file)

  -- `.and_then(read_string_from).and_then(parse)`, where `parse` may panic, or the default.
  abbrev parsed_or : {A : Type 0} → A → (Text → Outcome A) → Place → Text → Io State Error A
  parsed_or d parse c file = default_to d (do s ← read_string_from h c file; lift_outcome (parse s))

  -- `unwrap` on an optional limit.
  abbrev limit_of : Option MaxValue → Io State Error ℤ
  limit_of o = do m ← lift_outcome (unwrap o); pure (to_i64 m)

  unfoldable pub memory_stat_v2 : Place → Io State Error Memory
  unfolding get_mem read_from read_string_from parse_memory_stat
  memory_stat_v2 c = do
    set ←
        default_to
          (record {
            low = some (value (pos 0));
            high = some max;
            min = some (value (pos 0));
            max_limit = some max;
          })
          (get_mem h c)
    limit ← limit_of set.max_limit
    usage ← u64_or_zero c (codes "memory.current")
    peak ← u64_or_zero c (codes "memory.peak")
    soft_limit ← limit_of set.low
    stat ←
        parsed_or default_memory_stat (λ s. returns (parse_memory_stat s)) c (codes "memory.stat")
    swappiness ← u64_or_zero c (codes "memory.swap.current")
    pure (record {
      fail_cnt = 0;
      limit_in_bytes = limit;
      usage_in_bytes = usage;
      max_usage_in_bytes = peak;
      move_charge_at_immigrate = 0;
      numa_stat = default_numa_stat;
      oom_control = default_oom_control;
      soft_limit_in_bytes = soft_limit;
      stat = stat;
      swappiness = swappiness;
      use_hierarchy = 0;
    })

  unfoldable pub memory_stat_v1 : Place → Io State Error Memory
  unfolding read_from read_string_from parse_numa_stat parse_oom_control parse_memory_stat
  memory_stat_v1 c = do
    fail_cnt ← u64_or_zero c (codes "memory.failcnt")
    limit ← i64_or (pos 0) c (codes "memory.limit_in_bytes")
    usage ← u64_or_zero c (codes "memory.usage_in_bytes")
    max_usage ← u64_or_zero c (codes "memory.max_usage_in_bytes")
    move_charge ← u64_or_zero c (codes "memory.move_charge_at_immigrate")
    numa ← parsed_or default_numa_stat parse_numa_stat c (codes "memory.numa_stat")
    oom ← parsed_or default_oom_control parse_oom_control c (codes "memory.oom_control")
    soft_limit ← i64_or (pos 0) c (codes "memory.soft_limit_in_bytes")
    stat ←
        parsed_or default_memory_stat (λ s. returns (parse_memory_stat s)) c (codes "memory.stat")
    swappiness ← u64_or_zero c (codes "memory.swappiness")
    use_hierarchy ← u64_or_zero c (codes "memory.use_hierarchy")
    pure (record {
      fail_cnt = fail_cnt;
      limit_in_bytes = limit;
      usage_in_bytes = usage;
      max_usage_in_bytes = max_usage;
      move_charge_at_immigrate = move_charge;
      numa_stat = numa;
      oom_control = oom;
      soft_limit_in_bytes = soft_limit;
      stat = stat;
      swappiness = swappiness;
      use_hierarchy = use_hierarchy;
    })

  unfoldable pub memory_stat : Place → Io State Error Memory
  unfolding memory_stat_v1 memory_stat_v2
  memory_stat c = if c.v2 then memory_stat_v2 c else memory_stat_v1 c

  unfoldable pub kmem_stat : Place → Io State Error Kmem
  unfolding read_from read_string_from
  kmem_stat c = do
    fail_cnt ← u64_or_zero c (codes "memory.kmem.failcnt")
    limit ← i64_or minus_one c (codes "memory.kmem.limit_in_bytes")
    usage ← u64_or_zero c (codes "memory.kmem.usage_in_bytes")
    max_usage ← u64_or_zero c (codes "memory.kmem.max_usage_in_bytes")
    slabinfo ← default_to [] (read_string_from h c (codes "memory.kmem.slabinfo"))
    pure (record {
      fail_cnt = fail_cnt;
      limit_in_bytes = limit;
      usage_in_bytes = usage;
      max_usage_in_bytes = max_usage;
      slabinfo = slabinfo;
    })

  unfoldable pub kmem_tcp_stat : Place → Io State Error Tcp
  unfolding read_from
  kmem_tcp_stat c = do
    fail_cnt ← u64_or_zero c (codes "memory.kmem.tcp.failcnt")
    limit ← i64_or (pos 0) c (codes "memory.kmem.tcp.limit_in_bytes")
    usage ← u64_or_zero c (codes "memory.kmem.tcp.usage_in_bytes")
    max_usage ← u64_or_zero c (codes "memory.kmem.tcp.max_usage_in_bytes")
    pure (record {
      fail_cnt = fail_cnt;
      limit_in_bytes = limit;
      usage_in_bytes = usage;
      max_usage_in_bytes = max_usage;
    })

  -- `.and_then(flat_keyed_to_hashmap).map(|x| *x.get("fail").unwrap_or(&0) as u64).unwrap_or(0)`
  abbrev swap_failures : Place → Io State Error ℕ
  swap_failures c = default_to 0 (do
    events ← flat_keyed_to_hashmap h c (codes "memory.swap.events")
    pure (as_u64 (unwrap_or (get (codes "fail") events) (pos 0))))

  unfoldable pub memswap_v2 : Place → Io State Error MemSwap
  unfolding flat_keyed_to_hashmap get read_from
  memswap_v2 c = do
    fail_cnt ← swap_failures c
    limit ← i64_or (pos 0) c (codes "memory.swap.max")
    usage ← u64_or_zero c (codes "memory.swap.current")
    max_usage ← u64_or_zero c (codes "memory.swap.peak")
    pure (record {
      fail_cnt = fail_cnt;
      limit_in_bytes = limit;
      usage_in_bytes = usage;
      max_usage_in_bytes = max_usage;
    })

  unfoldable pub memswap_v1 : Place → Io State Error MemSwap
  unfolding read_from
  memswap_v1 c = do
    fail_cnt ← u64_or_zero c (codes "memory.memsw.failcnt")
    limit ← i64_or (pos 0) c (codes "memory.memsw.limit_in_bytes")
    usage ← u64_or_zero c (codes "memory.memsw.usage_in_bytes")
    max_usage ← u64_or_zero c (codes "memory.memsw.max_usage_in_bytes")
    pure (record {
      fail_cnt = fail_cnt;
      limit_in_bytes = limit;
      usage_in_bytes = usage;
      max_usage_in_bytes = max_usage;
    })

  unfoldable pub memswap : Place → Io State Error MemSwap
  unfolding memswap_v1 memswap_v2
  memswap c = if c.v2 then memswap_v2 c else memswap_v1 c
