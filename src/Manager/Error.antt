-- ===== src/Manager/Error.antt =====
-- manager/error.rs
use cgroups_rs.Base.{Result}
use cgroups_rs.Fs.Error as Fs
use cgroups_rs.Systemd.Error as Systemd
use cgroups_rs.Systemd.Dbus.Error as Dbus

pub data Error : Type 0 where
  invalid_argument invalid_linux_resource : Error
  cgroupfs : Fs.Error → Error
  systemd_cgroup : Systemd.Error → Error
  systemd_dbus : Dbus.Error → Error

abbrev pub ManagerResult : Type 0 → Type 0
ManagerResult A = Result Error A
