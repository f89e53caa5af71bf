-- ===== src/Fs/Cgroup/Tests.antt =====
-- The process numbers of two subsystems on a host with one file.
use cgroups_rs.Base.{ℕ, ◌≡◌, refl, false, List, [], ◌∷◌, ok, none}
use cgroups_rs.Text.{codes, Text}
use cgroups_rs.Text.Lines.{lines}
use cgroups_rs.Fs.Host.{Place}
use cgroups_rs.Fs.OneFile.{one_file}
use cgroups_rs.Fs.Subsystem.{pid, freezer}
use cgroups_rs.Fs.Hierarchies.{v1}
use cgroups_rs.Fs.Controller as Controller
use cgroups_rs.Fs.Cgroup.{Cgroup, procs}
use cgroups_rs.Fs.Cgroup.Pids.{IsSetOf, none_left, reads, procs-IsSetOf}

abbrev place : Place
place = record { base = codes "/"; path = codes "/g"; v2 = false }

abbrev group : Cgroup
group = record {
  subsystems = pid place ∷ freezer place ∷ [];
  hier = v1 [];
  path = codes "g";
  specified_controllers = none;
}

abbrev content : Text
content = codes "7\n3\n"

procs-IsSetOf_example :
    (r : List ℕ) × (procs one_file group content ≡ (ok r, content)) × IsSetOf (7 ∷ 3 ∷ 7 ∷ 3 ∷ []) r
unfolding Controller.read_pids lines
procs-IsSetOf_example =
    procs-IsSetOf one_file group (7 ∷ 3 ∷ 7 ∷ 3 ∷ []) content content
      (reads place {v = 7 ∷ 3 ∷ []} refl (reads place {v = 7 ∷ 3 ∷ []} refl (none_left content)))

procs_test : procs one_file group content ≡ (ok (3 ∷ 7 ∷ []), content)
unfolding procs lines
procs_test = refl
