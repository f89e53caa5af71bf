-- ===== src/Manager/Conv/Shares.antt =====
-- CPU weights: their range, their order and how they spread over it.
use cgroups_rs.Base.{ℕ, ◌-◌, ◌*◌, ◌≤◌, ◌<◌, ◌^◌, ◌≡◌, ◌↔◌, arith}
use cgroups_rs.Manager.Conv.{cpu_shares_to_cgroup_v2, cpu_weight_v2_max, cpu_shares_v1_max}

-- The conversion never lowers a weight where the shares grow, so containers keep their order, and
-- 0, the value that means unset, is the weight of 0 shares only.
pub cpu_shares_monotone :
    (a b : ℕ)
    → a ≤ b
    → (cpu_shares_to_cgroup_v2 a ≤ cpu_shares_to_cgroup_v2 b)
      × ((cpu_shares_to_cgroup_v2 a ≡ 0) ↔ (a ≡ 0))
unfolding cpu_shares_to_cgroup_v2
cpu_shares_monotone a b h = (ground arith, (ground arith, ground arith))

-- Shares other than 0 give a weight of cgroup v2, 1 to 10000; the intermediate product stays in 64
-- bits for shares below the v1 maximum; the largest weight is that of the v1 maximum and above, the
-- least weight that of shares up to 28, and from 2 shares to the maximum the weight less one is the
-- whole part of (shares - 2) * 9999 / 262142, so the ends of the v1 range meet those of the v2 range.
pub cpu_shares_range :
    (shares : ℕ)
    → 0 < shares
    → (1 ≤ cpu_shares_to_cgroup_v2 shares)
      × (cpu_shares_to_cgroup_v2 shares ≤ cpu_weight_v2_max)
      × (shares < cpu_shares_v1_max → (shares - 2) * 9999 < 2 ^ 64)
      × (cpu_shares_to_cgroup_v2 shares ≡ cpu_weight_v2_max ↔ cpu_shares_v1_max ≤ shares)
      × (cpu_shares_to_cgroup_v2 shares ≡ 1 ↔ shares ≤ 28)
      × (2 ≤ shares
          → shares ≤ cpu_shares_v1_max
          → ((cpu_shares_to_cgroup_v2 shares - 1) * 262142 ≤ (shares - 2) * 9999)
            × ((shares - 2) * 9999 < cpu_shares_to_cgroup_v2 shares * 262142))
unfolding cpu_shares_to_cgroup_v2
cpu_shares_range shares h = (
  ground arith,
  ground arith,
  λ lt. omega arith,
  (ground arith, ground arith),
  (ground arith, ground arith),
  λ low high. (ground arith, ground arith),
)
