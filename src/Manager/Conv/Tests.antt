-- ===== src/Manager/Conv/Tests.antt =====
-- The source's own tests, and the theorems on conversions at concrete limits.
use cgroups_rs.Base.{
  ℕ, ◌≡◌, ◌↔◌, ◌≤◌, ◌<◌, ◌*◌, ◌-◌, ◌^◌, ◌⊎◌, ◌≢◌, refl, ok, err, arith, pos, minus_one, ◌+ℤ◌, ◌≤ℤ◌,
  ◌<ℤ◌,
}
use cgroups_rs.Manager.Error.{invalid_linux_resource}
use cgroups_rs.Manager.Conv.{
  cpu_shares_to_cgroup_v2, memory_swap_to_cgroup_v2, cpu_weight_v2_max, cpu_shares_v1_max,
}
use cgroups_rs.Manager.Conv.Shares.{cpu_shares_monotone, cpu_shares_range}
use cgroups_rs.Manager.Conv.Swap.{IsGiven, memory_swap_refused, memory_swap_sum}

shares_test :
    (cpu_shares_to_cgroup_v2 1 ≡ 1)
    × (cpu_shares_to_cgroup_v2 100 ≡ 4)
    × (cpu_shares_to_cgroup_v2 262143 ≡ 9999)
unfolding cpu_shares_to_cgroup_v2
shares_test = (refl, refl, refl)

swap_test :
    (memory_swap_to_cgroup_v2 (pos 0) minus_one ≡ ok minus_one)
    × (memory_swap_to_cgroup_v2 (pos 100) (pos 0) ≡ err invalid_linux_resource)
    × (memory_swap_to_cgroup_v2 (pos 50) (pos 100) ≡ err invalid_linux_resource)
unfolding memory_swap_to_cgroup_v2
swap_test = (refl, refl, refl)

cpu_shares_monotone_example :
    (cpu_shares_to_cgroup_v2 100 ≤ cpu_shares_to_cgroup_v2 1024)
    × ((cpu_shares_to_cgroup_v2 100 ≡ 0) ↔ (◌≡◌ {A = ℕ} 100 0))
cpu_shares_monotone_example = cpu_shares_monotone 100 1024 (omega arith)

cpu_shares_range_example :
    (1 ≤ cpu_shares_to_cgroup_v2 1024)
    × (cpu_shares_to_cgroup_v2 1024 ≤ cpu_weight_v2_max)
    × (1024 < cpu_shares_v1_max → (1024 - 2) * 9999 < 2 ^ 64)
    × ((cpu_shares_to_cgroup_v2 1024 ≡ cpu_weight_v2_max) ↔ (cpu_shares_v1_max ≤ 1024))
    × ((cpu_shares_to_cgroup_v2 1024 ≡ 1) ↔ (1024 ≤ 28))
    × (2 ≤ 1024
        → 1024 ≤ cpu_shares_v1_max
        → ((cpu_shares_to_cgroup_v2 1024 - 1) * 262142 ≤ (1024 - 2) * 9999)
          × ((1024 - 2) * 9999 < cpu_shares_to_cgroup_v2 1024 * 262142))
cpu_shares_range_example = cpu_shares_range 1024 (omega arith)

memory_swap_refused_example :
    (memory_swap_to_cgroup_v2 (pos 50) (pos 100) ≡ err invalid_linux_resource)
    ↔ (IsGiven (pos 50) × (pos 100 ≢ minus_one) × ((pos 100 ≤ℤ pos 0) ⊎ (pos 50 <ℤ pos 100)))
memory_swap_refused_example = memory_swap_refused (pos 50) (pos 100)

two_limits : memory_swap_to_cgroup_v2 (pos 200) (pos 150) ≡ ok (pos 50)
unfolding memory_swap_to_cgroup_v2
two_limits = refl

memory_swap_sum_example : (pos 50 +ℤ pos 150 ≡ pos 200) × (pos 0 ≤ℤ pos 50) × (pos 50 ≤ℤ pos 200)
memory_swap_sum_example =
    memory_swap_sum (pos 200) (pos 150) (pos 50) (omega arith) (omega arith) two_limits
