-- ===== src/Manager/Fs/Threads.antt =====
-- manager/fs.rs, `add_thread`: a thread enters the group of a manager, or its process does.
use cgroups_rs.Base.{◌≡◌, false, ok, err, Result}
use cgroups_rs.Text.{Text}
use cgroups_rs.Io.{Io, Fault, error, panic}
use cgroups_rs.Fs.Error as Fs
use cgroups_rs.Fs.Host.{Host}
use cgroups_rs.Fs.Directories.{Directories}
use cgroups_rs.Fs.Controller as Controller
use cgroups_rs.Fs.Cgroup.{Cgroup}
use cgroups_rs.Fs.Cgroup as Cgroup
use cgroups_rs.Manager.Error.{Error}
use cgroups_rs.Manager.Fs.{is_cgroup_mode}

-- Not the error that a group is in the wrong mode.
abbrev NotMode : {A : Type 0} → Result (Fault Fs.Error) A → Type 0
NotMode (ok a) = Unit
NotMode (err (error e)) = is_cgroup_mode e.kind ≡ false
NotMode (err panic) = Unit
