-- ===== src/Manager/Limits/Tests.antt =====
-- Limits of a container on a host with one file.
use cgroups_rs.Base.{◌≡◌, refl, pos, true, false, none, some, [], ◌∷◌, ok, arith}
use cgroups_rs.Text.{Text, codes}
use cgroups_rs.Number.Print.{print}
use cgroups_rs.Number.Signed.{print_int}
use cgroups_rs.Fs.Host.{Place, push}
use cgroups_rs.Fs.OneFile.{one_file, one_file_stored}
use cgroups_rs.Fs.MaxValue.{MaxValue}
use cgroups_rs.Fs.Pid.{get_pid_max}
use cgroups_rs.Manager.Limits.{set_pids, set_devices, set_cpu, LinuxDeviceCgroup, LinuxCpu}
use cgroups_rs.Manager.Limits.Pids.{IsLimitOf, set_pids-get_pid_max}

abbrev group : Place
group = record { base = codes "/"; path = codes "/p"; v2 = true }

set_pids-get_pid_max_example :
    (after : Text) × (m : MaxValue) × (set_pids one_file (some group) (pos 64) (codes "max\n")
      ≡ (ok tt, after))
    × (get_pid_max one_file group after ≡ (ok m, after))
    × IsLimitOf (pos 64) m
set_pids-get_pid_max_example =
    set_pids-get_pid_max one_file group (one_file_stored (push group.path (codes "pids.max")))
      (pos 64) (codes "max\n") (omega arith, omega arith) tt

-- All block devices with one major number are meant, and one device is denied.
abbrev all_disks : LinuxDeviceCgroup
all_disks = record {
  allow = false;
  typ = codes "b";
  major = some (pos 8);
  minor = none;
  access = some (codes "rwm");
}

missing_minor : set_devices one_file (some group) (all_disks ∷ []) [] ≡ (ok tt, codes "b 8:0 rwm\n")
unfolding set_devices print_int
missing_minor = refl

abbrev some_shares : LinuxCpu
some_shares = record {
  shares = some 1024;
  quota = none;
  period = none;
  realtime_runtime = none;
  realtime_period = none;
  cpus = none;
  mems = none;
}

shares_test : set_cpu one_file true (some group) some_shares [] ≡ (ok tt, codes "39\n")
unfolding set_cpu print
shares_test = refl
