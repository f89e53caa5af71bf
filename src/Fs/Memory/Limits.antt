-- ===== src/Fs/Memory/Limits.antt =====
-- fs/memory.rs: the setters and `apply`.
use cgroups_rs.Base.{ℕ, ℤ, minus_one, ◌==◌, Option, eq_ℤ, if◌then◌else◌, ◌&&◌}
use cgroups_rs.Text.{Text, codes}
use cgroups_rs.Number.Print.{print}
use cgroups_rs.Number.Signed.{print_int}
use cgroups_rs.Io.{Io, ◌>>◌, pure, raise, or_else, update, for_each}
use cgroups_rs.Dict.{Dict}
use cgroups_rs.Fs.Error.{Error, ErrorKind, new, with_cause, os_error, write_failed, cgroup_version}
use cgroups_rs.Fs.Host.{Host, Place, push, write_value, open_for_write, set}

pub record MemoryResources : Type 0 where
  pub kernel_memory_limit : Option ℤ
  pub memory_hard_limit : Option ℤ
  pub memory_soft_limit : Option ℤ
  pub kernel_tcp_memory_limit : Option ℤ
  pub memory_swap_limit : Option ℤ
  pub swappiness : Option ℕ
  pub attrs : Dict Text

-- -1 is no limit, which version 2 calls `max`.
abbrev pub limit_text : Place → ℤ → Text
limit_text c limit = if c.v2 && eq_ℤ limit minus_one then codes "max" else print_int limit

abbrev pub limit_file : Place → Text
limit_file c = if c.v2 then codes "memory.max" else codes "memory.limit_in_bytes"

abbrev pub memswap_file : Place → Text
memswap_file c = if c.v2 then codes "memory.swap.max" else codes "memory.memsw.limit_in_bytes"

-- `libc::EOPNOTSUPP`
abbrev eopnotsupp : ℕ
eopnotsupp = 95

module _ (h : Host) where
  open h use {State, write_all}

  unfoldable pub reset_fail_count : Place → Io State Error (Unit {0})
  unfolding write_value
  reset_fail_count c = write_value h c (codes "memory.failcnt") (codes "0")

  unfoldable pub reset_kmem_fail_count : Place → Io State Error (Unit {0})
  unfolding write_value
  reset_kmem_fail_count c =
      if c.v2 then pure tt else write_value h c (codes "memory.kmem.failcnt") (codes "0")

  unfoldable pub reset_tcp_fail_count : Place → Io State Error (Unit {0})
  unfolding write_value
  reset_tcp_fail_count c =
      if c.v2 then pure tt else write_value h c (codes "memory.kmem.tcp.failcnt") (codes "0")

  unfoldable pub reset_memswap_fail_count : Place → Io State Error (Unit {0})
  unfolding write_value
  reset_memswap_fail_count c = write_value h c (codes "memory.memsw.failcnt") (codes "0")

  unfoldable pub reset_max_usage : Place → Io State Error (Unit {0})
  unfolding write_value
  reset_max_usage c = write_value h c (codes "memory.max_usage_in_bytes") (codes "0")

  unfoldable pub set_limit : Place → ℤ → Io State Error (Unit {0})
  unfolding write_value print_int
  set_limit c limit = write_value h c (limit_file c) (limit_text c limit)

  -- What is left of an error of `write_all`: `EOPNOTSUPP` is let pass.
  abbrev unless_unsupported : ErrorKind → ℕ → Io State Error (Unit {0})
  unless_unsupported kind e =
      if e == eopnotsupp then pure tt else raise (with_cause kind (os_error e))

  unfoldable pub set_kmem_limit : Place → ℤ → Io State Error (Unit {0})
  unfolding open_for_write print_int
  set_kmem_limit c limit =
      let file = codes "memory.kmem.limit_in_bytes" in
      if c.v2
      then pure tt
      else (open_for_write h c file
          >> or_else (write_all (push c.path file) (print_int limit))
              (unless_unsupported (write_failed file (print_int limit))))

  unfoldable pub set_memswap_limit : Place → ℤ → Io State Error (Unit {0})
  unfolding write_value print_int
  set_memswap_limit c limit = write_value h c (memswap_file c) (limit_text c limit)

  unfoldable pub set_tcp_limit : Place → ℤ → Io State Error (Unit {0})
  unfolding write_value print_int
  set_tcp_limit c limit =
      if c.v2
      then pure tt
      else write_value h c (codes "memory.kmem.tcp.limit_in_bytes") (print_int limit)

  unfoldable pub set_soft_limit : Place → ℤ → Io State Error (Unit {0})
  unfolding write_value print_int
  set_soft_limit c limit =
      write_value h c (if c.v2 then codes "memory.low" else codes "memory.soft_limit_in_bytes")
        (print_int limit)

  unfoldable pub set_swappiness : Place → ℕ → Io State Error (Unit {0})
  unfolding write_value print
  set_swappiness c swp =
      write_value h c (if c.v2 then codes "memory.swap.max" else codes "memory.swappiness")
        (print swp)

  unfoldable pub disable_oom_killer : Place → Io State Error (Unit {0})
  unfolding write_value
  disable_oom_killer c =
      if c.v2
      then raise (new cgroup_version)
      else write_value h c (codes "memory.oom_control") (codes "1")

  -- `ControllerInternal::apply`
  unfoldable pub apply : Place → MemoryResources → Io State Error (Unit {0})
  unfolding for_each set_limit set_soft_limit set_kmem_limit set_memswap_limit set_tcp_limit
      set_swappiness set
  apply c res =
      update (set_limit c) res.memory_hard_limit
      >> update (set_soft_limit c) res.memory_soft_limit
      >> update (set_kmem_limit c) res.kernel_memory_limit
      >> update (set_memswap_limit c) res.memory_swap_limit
      >> update (set_tcp_limit c) res.kernel_tcp_memory_limit
      >> update (set_swappiness c) res.swappiness
      >> for_each (λ (k, v). set h c k v) res.attrs
