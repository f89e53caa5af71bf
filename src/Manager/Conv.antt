-- ===== src/Manager/Conv.antt =====
-- manager/conv.rs: resource values of the OCI runtime specification, which are those of cgroup v1,
-- as values of cgroup v2.
pub mod Shares
pub mod Swap
mod Tests
use cgroups_rs.Base.{
  ℕ, ◌+◌, ◌-◌, ◌*◌, ◌/◌, Bool, true, false, ◌&&◌, ◌||◌, Result, ok, err, ◌==◌, ltb, leb,
  if◌then◌else◌, ℤ, pos, negsuc, minus_one, eq_ℤ, ltb_ℤ, ◌-ℤ◌,
}
use cgroups_rs.Manager.Error.{Error, ManagerResult, invalid_linux_resource}

abbrev pub cpu_shares_v1_max : ℕ
cpu_shares_v1_max = 262144

abbrev pub cpu_weight_v2_max : ℕ
cpu_weight_v2_max = 10000

unfoldable pub cpu_shares_to_cgroup_v2 : ℕ → ℕ
cpu_shares_to_cgroup_v2 shares =
    if shares == 0
    then 0
    else if leb shares 2
    then 1
    else if leb cpu_shares_v1_max shares
    then cpu_weight_v2_max
    else (shares - 2) * 9999 / 262142 + 1

-- The difference does not overflow: both limits are positive there.
unfoldable pub memory_swap_to_cgroup_v2 : ℤ → ℤ → ManagerResult ℤ
unfolding ◌-ℤ◌
memory_swap_to_cgroup_v2 memswap_limit mem_limit =
    if eq_ℤ mem_limit minus_one && eq_ℤ memswap_limit (pos 0)
    then ok minus_one
    else if eq_ℤ memswap_limit minus_one || eq_ℤ memswap_limit (pos 0)
    then ok memswap_limit
    else if eq_ℤ mem_limit minus_one
    then ok memswap_limit
    else if eq_ℤ mem_limit (pos 0)
    then err invalid_linux_resource
    else if ltb_ℤ mem_limit (pos 0)
    then err invalid_linux_resource
    else if ltb_ℤ memswap_limit mem_limit
    then err invalid_linux_resource
    else ok (memswap_limit -ℤ mem_limit)
