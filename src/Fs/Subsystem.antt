-- ===== src/Fs/Subsystem.antt =====
-- fs/mod.rs: a subsystem, which is the place of its controller under the kind of it.
use cgroups_rs.Text.{Text}
use mathlib.Core.Logic.{ite}
use cgroups_rs.Base.{List, [], ◌∷◌, Option, none, some}
use cgroups_rs.Fs.Controllers.{Controllers, name_of}
use cgroups_rs.Fs.Host.{Place, push}

-- A controller of huge pages knows the page sizes too.
pub data Subsystem : Type 0 where
  pid : Place → Subsystem
  mem : Place → Subsystem
  cpu_set : Place → Subsystem
  cpu_acct : Place → Subsystem
  cpu : Place → Subsystem
  devices : Place → Subsystem
  freezer : Place → Subsystem
  net_cls : Place → Subsystem
  blk_io : Place → Subsystem
  perf_event : Place → Subsystem
  net_prio : Place → Subsystem
  huge_tlb : List Text → Place → Subsystem
  rdma : Place → Subsystem
  systemd : Place → Subsystem

abbrev pub to_controller : Subsystem → Place
to_controller (pid cont) = cont
to_controller (mem cont) = cont
to_controller (cpu_set cont) = cont
to_controller (cpu_acct cont) = cont
to_controller (cpu cont) = cont
to_controller (devices cont) = cont
to_controller (freezer cont) = cont
to_controller (net_cls cont) = cont
to_controller (blk_io cont) = cont
to_controller (perf_event cont) = cont
to_controller (net_prio cont) = cont
to_controller (huge_tlb _ cont) = cont
to_controller (rdma cont) = cont
to_controller (systemd cont) = cont

abbrev pub control_type : Subsystem → Controllers
control_type (pid _) = Controllers.pids
control_type (mem _) = Controllers.mem
control_type (cpu_set _) = Controllers.cpu_set
control_type (cpu_acct _) = Controllers.cpu_acct
control_type (cpu _) = Controllers.cpu
control_type (devices _) = Controllers.devices
control_type (freezer _) = Controllers.freezer
control_type (net_cls _) = Controllers.net_cls
control_type (blk_io _) = Controllers.blk_io
control_type (perf_event _) = Controllers.perf_event
control_type (net_prio _) = Controllers.net_prio
control_type (huge_tlb _ _) = Controllers.huge_tlb
control_type (rdma _) = Controllers.rdma
control_type (systemd _) = Controllers.systemd

abbrev moved : Text → Place → Place
moved path cont = record cont { path = push cont.path path }

unfoldable pub enter : Text → Subsystem → Subsystem
unfolding push
enter path (pid cont) = pid (moved path cont)
enter path (mem cont) = mem (moved path cont)
enter path (cpu_set cont) = cpu_set (moved path cont)
enter path (cpu_acct cont) = cpu_acct (moved path cont)
enter path (cpu cont) = cpu (moved path cont)
enter path (devices cont) = devices (moved path cont)
enter path (freezer cont) = freezer (moved path cont)
enter path (net_cls cont) = net_cls (moved path cont)
enter path (blk_io cont) = blk_io (moved path cont)
enter path (perf_event cont) = perf_event (moved path cont)
enter path (net_prio cont) = net_prio (moved path cont)
enter path (huge_tlb sizes cont) = huge_tlb sizes (moved path cont)
enter path (rdma cont) = rdma (moved path cont)
enter path (systemd cont) = systemd (moved path cont)

abbrev pub controller_name : Subsystem → Text
controller_name x = name_of (control_type x)

pub Controllers-discrete : Discrete Controllers
Controllers-discrete = hlevel

-- `Cgroup::controller_of`: the controller of the first subsystem of a kind.
unfoldable pub controller_of : Controllers → List Subsystem → Option Place
unfolding Controllers-discrete
controller_of kind [] = none
controller_of kind (x ∷ xs) =
    ite (Controllers-discrete (control_type x) kind) (some (to_controller x))
      (controller_of kind xs)

-- The page sizes of the huge page controller.
abbrev pub sizes_of : List Subsystem → List Text
sizes_of [] = []
sizes_of (huge_tlb sizes _ ∷ xs) = sizes
sizes_of (_ ∷ xs) = sizes_of xs
