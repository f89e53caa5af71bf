-- ===== src/Manager/Systemd/Tests.antt =====
-- The systemd manager on concrete values.
use cgroups_rs.Base.{
  Bool, if◌then◌else◌, ◌+◌, ◌*◌, ◌%◌, ◌<◌, ◌≡◌, refl, true, [], pos, negsuc, arith,
}
use cgroups_rs.Text.{Text, codes, ends_with}
use cgroups_rs.Manager.Systemd.{default_slice, new_unit_name, quota_per_second, systemd_quota}
use cgroups_rs.Dict.{Dict}
use cgroups_rs.Systemd.Props.{ZbusValues, default_cgroup, build}
use cgroups_rs.Manager.Systemd.Quota.{quota_per_second-bounds}

abbrev words : Bool → Text
words b = if b then codes "yes" else codes "no"

-- Values shown as text.
abbrev texts : ZbusValues
texts = record { Value = Text; bool = words; str = λ t. t; uint64 = λ n. []; array = λ ns. [] }

abbrev properties : Text → Dict Text
properties unit = build texts true (default_cgroup default_slice unit)

-- A quota of 1 ms in a period of 99,999 us is given as 10 ms in a second, which is just below it.
quota_per_second-bounds_example :
    (quota_per_second 1000 99999 % 10000 ≡ 0)
    × (1000 * 1000000 < (quota_per_second 1000 99999 + 1) * 99999)
    × (quota_per_second 1000 99999 * 99999 < 1000 * 1000000 + 10000 * 99999)
quota_per_second-bounds_example = quota_per_second-bounds 1000 99999 (omega arith) (omega arith)

new_unit_name_test :
    (new_unit_name (codes "cri") (codes "pod1") ≡ codes "cri-pod1.scope")
    × (new_unit_name [] (codes "pod1") ≡ codes "pod1.scope")
    × (new_unit_name (codes "cri") (codes "pod1.slice") ≡ codes "pod1.slice")
unfolding new_unit_name ends_with
new_unit_name_test = (refl, refl, refl)

-- Half of a processor, a third of one, and no limit.
systemd_quota_test :
    (systemd_quota (pos 50000) 100000 ≡ 500000)
    × (systemd_quota (pos 1000) 3000 ≡ 340000)
    × (systemd_quota (negsuc 0) 100000 ≡ 18446744073709551615)
unfolding systemd_quota
systemd_quota_test = (refl, refl, refl)
