-- ===== src/Fs/Pid/Tests.antt =====
-- The limit on a host with one file.
use cgroups_rs.Base.{◌≡◌, true, ok, some, pos, arith}
use cgroups_rs.Text.{Text, codes}
use cgroups_rs.Fs.Host.{Place, push}
use cgroups_rs.Fs.OneFile.{one_file, one_file_stored}
use cgroups_rs.Fs.MaxValue.{value}
use cgroups_rs.Fs.Pid.{apply, get_pid_max}
use cgroups_rs.Fs.Pid.Limit.{apply-get_pid_max}

abbrev group : Place
group = record { base = codes "/"; path = codes "/p"; v2 = true }

apply-get_pid_max_example :
    (after : Text) × (apply one_file group
        (record { maximum_number_of_processes = some (value (pos 64)) })
        (codes "max\n")
      ≡ (ok tt, after))
    × (get_pid_max one_file group after ≡ (ok (value (pos 64)), after))
apply-get_pid_max_example =
    apply-get_pid_max one_file group (one_file_stored (push group.path (codes "pids.max")))
      (value (pos 64)) (codes "max\n") (omega arith, omega arith) tt
