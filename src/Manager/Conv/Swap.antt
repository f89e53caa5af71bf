-- ===== src/Manager/Conv/Swap.antt =====
-- The swap limit of cgroup v2 against the combined limit of memory and swap.
use cgroups_rs.Base.{
  ◌≡◌, ◌≢◌, ◌↔◌, ◌⊎◌, ok, err, arith, ℤ, pos, negsuc, minus_one, ◌+ℤ◌, ◌≤ℤ◌, ◌<ℤ◌,
}
use cgroups_rs.Manager.Error.{invalid_linux_resource}
use cgroups_rs.Manager.Conv.{memory_swap_to_cgroup_v2}

-- A limit that is not one of the two marks, -1 for no limit and 0 for unset.
abbrev pub IsGiven : ℤ → Type 0
IsGiven z = (z ≢ minus_one) × (z ≢ pos 0)

-- The conversion refuses exactly a swap limit that is given beside a memory limit that is unset, or
-- negative and not -1, or larger than it.
pub memory_swap_refused :
    (swap mem : ℤ)
    → (memory_swap_to_cgroup_v2 swap mem ≡ err invalid_linux_resource)
      ↔ (IsGiven swap × (mem ≢ minus_one) × ((mem ≤ℤ pos 0) ⊎ (swap <ℤ mem)))
unfolding memory_swap_to_cgroup_v2
memory_swap_refused swap mem = (ground arith, ground arith)

-- Between two positive limits the result is the swap alone: it and the memory limit add up to the
-- combined limit, and it is neither negative nor larger than that.
pub memory_swap_sum :
    (swap mem z : ℤ)
    → pos 0 <ℤ swap
    → pos 0 <ℤ mem
    → memory_swap_to_cgroup_v2 swap mem ≡ ok z
    → (z +ℤ mem ≡ swap) × (pos 0 ≤ℤ z) × (z ≤ℤ swap)
unfolding memory_swap_to_cgroup_v2 ◌+ℤ◌
memory_swap_sum (pos s) (pos m) z hs hm h = (ground arith, ground arith, ground arith)
memory_swap_sum (negsuc s) (pos m) z hs hm h = absurd (omega arith)
memory_swap_sum (pos s) (negsuc m) z hs hm h = absurd (omega arith)
memory_swap_sum (negsuc s) (negsuc m) z hs hm h = absurd (omega arith)
