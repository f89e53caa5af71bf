-- ===== src/Manager/Memory.antt =====
-- manager/fs.rs: the memory limits of a container, in cgroup v1 and in v2.
pub mod Order
pub mod Swapless
mod Tests
use cgroups_rs.Base.{
  ℕ, ℤ, pos, minus_one, ◌≤◌, Bool, true, false, not, ◌&&◌, ◌||◌, Option, none, some, eq_ℤ, ltb_ℤ,
  leb_ℤ, leb, as_u64, unwrap_or, if◌then◌else◌,
}
use cgroups_rs.Io.{Io, ◌>>=◌, ◌>>◌, pure, raise, lift, map_err, when_some}
use cgroups_rs.Fs.Error as Fs
use cgroups_rs.Fs.Host.{Host, Place}
use cgroups_rs.Fs.Memory.Usage.{Memory, memory_stat}
use cgroups_rs.Fs.Memory.Limits.{
  set_limit, set_memswap_limit, set_soft_limit, set_swappiness, disable_oom_killer,
}
use cgroups_rs.Manager.Error.{Error, cgroupfs, invalid_linux_resource}
use cgroups_rs.Manager.Conv.{memory_swap_to_cgroup_v2}

-- The fields of the runtime specification's `LinuxMemory` that the manager reads.
pub record LinuxMemory : Type 0 where
  pub limit : Option ℤ
  pub reservation : Option ℤ
  pub swap : Option ℤ
  pub swappiness : Option ℕ
  pub disable_oom_killer : Option Bool

-- The swap limit of version 1: no limit on memory means no limit on swap if that is not set.
abbrev pub effective_swap : ℤ → ℤ → ℤ
effective_swap limit swap_limit =
    if eq_ℤ limit minus_one && eq_ℤ swap_limit (pos 0) then minus_one else swap_limit

abbrev pub is_zero : ℤ → Bool
is_zero z = eq_ℤ z (pos 0)

abbrev pub is_none : {A : Type 0} → Option A → Bool
is_none none = true
is_none (some a) = false

module _ {S A : Type 0} where
  -- `?` on a result of the `fs` module.
  abbrev pub from_fs : Io S Fs.Error A → Io S Error A
  from_fs = map_err cgroupfs

module _ {S E : Type 0} where
  -- `if b { m? }`
  abbrev pub when : Bool → Io S E (Unit {0}) → Io S E (Unit {0})
  when b m = if b then m else pure tt

module _ (h : Host) where
  open h use {State}

  -- `self.controller()`, over the controller that the control group has.
  abbrev pub controller : Option Place → Io State Error Place
  controller none = raise (cgroupfs (Fs.new Fs.subsystems_empty))
  controller (some c) = pure c

  -- The writes with the limit first, each if its value is set.
  unfoldable pub set_in_order : Place → ℤ → ℤ → Io State Error (Unit {0})
  unfolding set_limit set_memswap_limit
  set_in_order c limit swap_limit =
      when (not (is_zero limit)) (from_fs (set_limit h c limit))
      >> when (not (is_zero swap_limit)) (from_fs (set_memswap_limit h c swap_limit))

  -- What follows the read of the actual limit.
  unfoldable pub set_both : Place → ℤ → ℤ → Memory → Io State Error (Unit {0})
  unfolding set_in_order
  set_both c limit swap_limit memory =
      if eq_ℤ swap_limit minus_one || ltb_ℤ memory.limit_in_bytes swap_limit
      then from_fs (set_memswap_limit h c swap_limit) >> from_fs (set_limit h c limit)
      else set_in_order c limit swap_limit

  unfoldable pub set_mem_and_memswap_v1 : Option Place → ℤ → ℤ → Io State Error (Unit {0})
  unfolding set_both memory_stat
  set_mem_and_memswap_v1 mem limit swap = do
    c ← controller mem
    let swap_limit = effective_swap limit swap
    (if not (is_zero limit) && not (is_zero swap_limit)
        then from_fs (memory_stat h c) >>= set_both c limit swap_limit
        else set_in_order c limit swap_limit)

  abbrev set_checked_swappiness : Place → ℕ → Io State Error (Unit {0})
  set_checked_swappiness c swappiness =
      if leb swappiness 100
      then from_fs (set_swappiness h c swappiness)
      else raise invalid_linux_resource

  unfoldable pub set_memory_v1 : Option Place → LinuxMemory → Io State Error (Unit {0})
  unfolding set_mem_and_memswap_v1 set_soft_limit disable_oom_killer set_swappiness
  set_memory_v1 mem m = do
    c ← controller mem
    set_mem_and_memswap_v1 mem (unwrap_or m.limit (pos 0)) (unwrap_or m.swap (pos 0))
    when_some m.reservation (λ r. from_fs (set_soft_limit h c r))
    when (unwrap_or m.disable_oom_killer false) (from_fs (disable_oom_killer h c))
    when_some m.swappiness (set_checked_swappiness c)

  -- The limit is set and the usage has reached it.
  abbrev pub reached : ℤ → ℕ → Bool
  reached limit usage = ltb_ℤ (pos 0) limit && leb (as_u64 limit) usage

  -- What follows the checks of the usage.
  unfoldable pub write_limits_v2 : Place → LinuxMemory → ℤ → ℤ → Io State Error (Unit {0})
  unfolding memory_swap_to_cgroup_v2 set_memswap_limit set_limit set_soft_limit
  write_limits_v2 c m mem_limit memswap_limit = do
    swap_limit ← lift (memory_swap_to_cgroup_v2 memswap_limit mem_limit)
    from_fs (set_memswap_limit h c swap_limit)
    when (not (is_zero mem_limit)) (from_fs (set_limit h c mem_limit))
    when_some m.reservation (λ r. from_fs (set_soft_limit h c r))

  unfoldable pub set_limits_v2 : Place → LinuxMemory → ℤ → ℤ → Io State Error (Unit {0})
  unfolding memory_stat write_limits_v2
  set_limits_v2 c m mem_limit memswap_limit =
      if leb_ℤ mem_limit (pos 0) && leb_ℤ memswap_limit (pos 0)
      then pure tt
      else (from_fs (memory_stat h c) >>= λ stat.
          if reached memswap_limit stat.usage_in_bytes
          then raise invalid_linux_resource
          else if reached mem_limit stat.usage_in_bytes
          then raise invalid_linux_resource
          else write_limits_v2 c m mem_limit memswap_limit)

  unfoldable pub set_memory_v2 : Option Place → LinuxMemory → Io State Error (Unit {0})
  unfolding set_limits_v2
  set_memory_v2 mem m = do
    c ← controller mem
    (if is_none m.reservation && is_none m.limit && is_none m.swap
        then pure tt
        else set_limits_v2 c m (unwrap_or m.limit (pos 0)) (unwrap_or m.swap (pos 0)))

  -- The version of the control group and its memory controller.
  unfoldable pub set_memory : Bool → Option Place → LinuxMemory → Io State Error (Unit {0})
  unfolding set_memory_v1 set_memory_v2
  set_memory v2 mem m = if v2 then set_memory_v2 mem m else set_memory_v1 mem m
