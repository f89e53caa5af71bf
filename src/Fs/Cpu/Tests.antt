-- ===== src/Fs/Cpu/Tests.antt =====
-- The bandwidth on a host with one file.
use cgroups_rs.Base.{pos, ◌≡◌, refl, true, ok, none, some, arith}
use cgroups_rs.Text.{Text, codes}
use cgroups_rs.Number.Signed.{parse_int}
use cgroups_rs.Fs.Host.{Place, push}
use cgroups_rs.Fs.OneFile.{one_file, one_file_stored}
use cgroups_rs.Fs.MaxValue.{max}
use cgroups_rs.Fs.Cpu.{CfsQuotaAndPeriod, set_cfs_quota_and_period, cfs_quota, cfs_period}
use cgroups_rs.Fs.Cpu.Bandwidth.{line_of, set_cfs_quota_and_period-cfs}

abbrev place : Place
place = record { base = codes "/"; path = codes "/g"; v2 = true }

abbrev unlimited : CfsQuotaAndPeriod
unlimited = record { quota = max; period = 100000 }

set_cfs_quota_and_period-cfs_example :
    (after : Text) × (set_cfs_quota_and_period one_file place
        (some (pos 50000))
        none
        (codes "max 100000\n")
      ≡ (ok tt, after))
    × (cfs_quota one_file place after ≡ (ok (pos 50000), after))
    × (cfs_period one_file place after ≡ (ok 100000, after))
unfolding line_of
set_cfs_quota_and_period-cfs_example =
    set_cfs_quota_and_period-cfs one_file place
      (one_file_stored (push place.path (codes "cpu.max"))) unlimited (some (pos 50000)) none
      (codes "max 100000\n") refl (tt, omega arith) refl ((omega arith, omega arith), omega arith)
      tt

bandwidth_test :
    set_cfs_quota_and_period one_file place none (some 200000) (codes "-5 100000\n")
    ≡ (ok tt, codes "-5 200000\n")
unfolding set_cfs_quota_and_period parse_int
bandwidth_test = refl
