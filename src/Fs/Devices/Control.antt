-- ===== src/Fs/Devices/Control.antt =====
-- fs/devices.rs: the operations of the controller.
use cgroups_rs.Base.{ℤ, List, [], ◌∷◌, if◌then◌else◌}
use cgroups_rs.Text.{Text, codes}
use cgroups_rs.Io.{Io, ◌>>=◌, ◌>>◌, map_err, lift, try_for_each}
use cgroups_rs.Fs.Error.{Error, with_cause, os_error, write_failed}
use cgroups_rs.Fs.Host.{Host, Place, push, open_for_write, read_text}
use cgroups_rs.Fs.Devices.{
  DeviceType, DevicePermissions, read, write, mk_nod, DeviceResource, rule_text, devices_of_content,
}

-- `DevicePermissions::all`
abbrev pub all_permissions : List DevicePermissions
all_permissions = read ∷ write ∷ mk_nod ∷ []

module _ (h : Host) where
  open h use {State, write_all}

  -- The rule is written to a file; the error names the file by its path.
  unfoldable pub write_rule :
      Text → Place → DeviceType → ℤ → ℤ → List DevicePermissions → Io State Error (Unit {0})
  unfolding open_for_write rule_text
  write_rule file c devtype major minor perm =
      let path = push c.path file in
      let final_str = rule_text devtype major minor perm in
      open_for_write h c file
      >> map_err (λ e. with_cause (write_failed path final_str) (os_error e))
          (write_all path final_str)

  abbrev pub allow_device :
      Place → DeviceType → ℤ → ℤ → List DevicePermissions → Io State Error (Unit {0})
  allow_device = write_rule (codes "devices.allow")

  abbrev pub deny_device :
      Place → DeviceType → ℤ → ℤ → List DevicePermissions → Io State Error (Unit {0})
  deny_device = write_rule (codes "devices.deny")

  unfoldable pub allowed_devices : Place → Io State Error (List DeviceResource)
  unfolding read_text devices_of_content
  allowed_devices c = do
    s ← read_text h c (codes "devices.list") (codes "devices.list")
    lift (devices_of_content s)

  unfoldable pub apply_rule : Place → DeviceResource → Io State Error (Unit {0})
  unfolding write_rule
  apply_rule c i =
      if i.allow
      then allow_device c i.devtype i.major i.minor i.access
      else deny_device c i.devtype i.major i.minor i.access

  -- `ControllerInternal::apply`
  unfoldable pub apply : Place → List DeviceResource → Io State Error (Unit {0})
  unfolding try_for_each apply_rule
  apply c devices = try_for_each (apply_rule c) devices
