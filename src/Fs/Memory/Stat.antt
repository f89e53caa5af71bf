-- ===== src/Fs/Memory/Stat.antt =====
-- fs/memory.rs: the texts of `memory.oom_control` and `memory.stat`.
use cgroups_rs.Base.{
  ℕ, ℤ, pos, Bool, false, List, [], ◌∷◌, ◌==◌, Option, none, some, unwrap_or, Outcome, returns,
  unwrap, then_returns, get_elem?, as_i64,
}
use cgroups_rs.Text.{Text, codes, trim}
use cgroups_rs.Text.Split.{split, split_by, split_whitespace}
use cgroups_rs.Text.Lines.{lines}
use cgroups_rs.Number.{parse_u64, parse_uint}
use cgroups_rs.Dict.{Dict, get, insert}

pub record OomControl : Type 0 where
  pub oom_kill_disable : Bool
  pub under_oom : Bool
  pub oom_kill : ℕ

abbrev pub default_oom_control : OomControl
default_oom_control = record { oom_kill_disable = false; under_oom = false; oom_kill = 0 }

-- `if spl.len() > i { f(spl[i].parse::<u64>().unwrap()) } else { d }`
abbrev word_or : {A : Type 0} → Option Text → A → (ℕ → A) → Outcome A
word_or none d f = returns d
word_or (some w) d f = then_returns (unwrap (parse_u64 w)) λ n. returns (f n)

unfoldable pub parse_oom_control : Text → Outcome OomControl
unfolding split_whitespace parse_uint
parse_oom_control s =
    let spl = split_whitespace s in
    then_returns (word_or (get_elem? spl 1) false (λ n. n == 1)) λ oom_kill_disable.
      then_returns (word_or (get_elem? spl 3) false (λ n. n == 1)) λ under_oom.
        then_returns (word_or (get_elem? spl 5) 0 (λ n. n)) λ oom_kill. returns (record {
          oom_kill_disable = oom_kill_disable;
          under_oom = under_oom;
          oom_kill = oom_kill;
        })

pub record MemoryStat : Type 0 where
  pub cache : ℕ
  pub rss : ℕ
  pub rss_huge : ℕ
  pub shmem : ℕ
  pub mapped_file : ℕ
  pub dirty : ℕ
  pub writeback : ℕ
  pub swap : ℕ
  pub pgpgin : ℕ
  pub pgpgout : ℕ
  pub pgfault : ℕ
  pub pgmajfault : ℕ
  pub inactive_anon : ℕ
  pub active_anon : ℕ
  pub inactive_file : ℕ
  pub active_file : ℕ
  pub unevictable : ℕ
  pub hierarchical_memory_limit : ℤ
  pub hierarchical_memsw_limit : ℤ
  pub total_cache : ℕ
  pub total_rss : ℕ
  pub total_rss_huge : ℕ
  pub total_shmem : ℕ
  pub total_mapped_file : ℕ
  pub total_dirty : ℕ
  pub total_writeback : ℕ
  pub total_swap : ℕ
  pub total_pgpgin : ℕ
  pub total_pgpgout : ℕ
  pub total_pgfault : ℕ
  pub total_pgmajfault : ℕ
  pub total_inactive_anon : ℕ
  pub total_active_anon : ℕ
  pub total_inactive_file : ℕ
  pub total_active_file : ℕ
  pub total_unevictable : ℕ
  pub raw : Dict ℕ

-- One line of the file: a key, a space and a number, or it is passed over.
abbrev stat_pieces : Dict ℕ → List Text → Dict ℕ
stat_pieces raw (k ∷ n ∷ []) = elim (parse_u64 (trim n)) [ none ↦ raw | some v ↦ insert k v raw ]
stat_pieces raw _ = raw

unfoldable pub raw_of_lines : Dict ℕ → List Text → Dict ℕ
unfolding split_by trim parse_uint insert
raw_of_lines raw [] = raw
raw_of_lines raw (l ∷ ls) = raw_of_lines (stat_pieces raw (split b' ' l)) ls

-- `*raw.get(key).unwrap_or(&0)`
unfoldable pub count_of : Text → Dict ℕ → ℕ
unfolding get
count_of key raw = unwrap_or (get key raw) 0

unfoldable pub stat_of : Dict ℕ → MemoryStat
unfolding count_of
stat_of raw = record {
  cache = count_of (codes "cache") raw;
  rss = count_of (codes "rss") raw;
  rss_huge = count_of (codes "rss_huge") raw;
  shmem = count_of (codes "shmem") raw;
  mapped_file = count_of (codes "mapped_file") raw;
  dirty = count_of (codes "dirty") raw;
  writeback = count_of (codes "writeback") raw;
  swap = count_of (codes "swap") raw;
  pgpgin = count_of (codes "pgpgin") raw;
  pgpgout = count_of (codes "pgpgout") raw;
  pgfault = count_of (codes "pgfault") raw;
  pgmajfault = count_of (codes "pgmajfault") raw;
  inactive_anon = count_of (codes "inactive_anon") raw;
  active_anon = count_of (codes "active_anon") raw;
  inactive_file = count_of (codes "inactive_file") raw;
  active_file = count_of (codes "active_file") raw;
  unevictable = count_of (codes "unevictable") raw;
  hierarchical_memory_limit = as_i64 (count_of (codes "hierarchical_memory_limit") raw);
  hierarchical_memsw_limit = as_i64 (count_of (codes "hierarchical_memsw_limit") raw);
  total_cache = count_of (codes "total_cache") raw;
  total_rss = count_of (codes "total_rss") raw;
  total_rss_huge = count_of (codes "total_rss_huge") raw;
  total_shmem = count_of (codes "total_shmem") raw;
  total_mapped_file = count_of (codes "total_mapped_file") raw;
  total_dirty = count_of (codes "total_dirty") raw;
  total_writeback = count_of (codes "total_writeback") raw;
  total_swap = count_of (codes "total_swap") raw;
  total_pgpgin = count_of (codes "total_pgpgin") raw;
  total_pgpgout = count_of (codes "total_pgpgout") raw;
  total_pgfault = count_of (codes "total_pgfault") raw;
  total_pgmajfault = count_of (codes "total_pgmajfault") raw;
  total_inactive_anon = count_of (codes "total_inactive_anon") raw;
  total_active_anon = count_of (codes "total_active_anon") raw;
  total_inactive_file = count_of (codes "total_inactive_file") raw;
  total_active_file = count_of (codes "total_active_file") raw;
  total_unevictable = count_of (codes "total_unevictable") raw;
  raw = raw;
}

unfoldable pub parse_memory_stat : Text → MemoryStat
unfolding lines raw_of_lines stat_of
parse_memory_stat s = stat_of (raw_of_lines [] (lines s))

abbrev pub default_memory_stat : MemoryStat
default_memory_stat = record {
  cache = 0;
  rss = 0;
  rss_huge = 0;
  shmem = 0;
  mapped_file = 0;
  dirty = 0;
  writeback = 0;
  swap = 0;
  pgpgin = 0;
  pgpgout = 0;
  pgfault = 0;
  pgmajfault = 0;
  inactive_anon = 0;
  active_anon = 0;
  inactive_file = 0;
  active_file = 0;
  unevictable = 0;
  hierarchical_memory_limit = pos 0;
  hierarchical_memsw_limit = pos 0;
  total_cache = 0;
  total_rss = 0;
  total_rss_huge = 0;
  total_shmem = 0;
  total_mapped_file = 0;
  total_dirty = 0;
  total_writeback = 0;
  total_swap = 0;
  total_pgpgin = 0;
  total_pgpgout = 0;
  total_pgfault = 0;
  total_pgmajfault = 0;
  total_inactive_anon = 0;
  total_active_anon = 0;
  total_inactive_file = 0;
  total_active_file = 0;
  total_unevictable = 0;
  raw = [];
}
