-- ===== src/Manager/Limits.antt =====
-- manager/fs.rs: the other resources of a container that the file systems' manager sets. A
-- controller that the control group does not have is `none`.
pub mod Pids
mod Tests
use cgroups_rs.Base.{
  ℕ, ℤ, pos, List, [], ◌∷◌, Bool, Option, none, some, ok_or, unwrap_or, ltb_ℤ, ◌==◌, not,
  if◌then◌else◌,
}
use cgroups_rs.Text.{Text, codes}
use cgroups_rs.Io.{Io, ◌>>=◌, ◌>>◌, pure, raise, lift, when_some, try_for_each}
use cgroups_rs.Fs.Host.{Host, Place, write_value}
use cgroups_rs.Fs.MaxValue.{MaxValue, max, value}
use cgroups_rs.Fs.Cpu.{set_shares, set_cfs_quota, set_cfs_period, set_rt_runtime, set_rt_period_us}
use cgroups_rs.Fs.Pid.{set_pid_max}
use cgroups_rs.Fs.Freezer.{FreezerState, thawed, frozen, freezing}
use cgroups_rs.Fs.Freezer as Freezer
use cgroups_rs.Fs.Devices.{DevicePermissions, read, write, mk_nod, type_from_char}
use cgroups_rs.Fs.Devices.Control.{write_rule, allow_device, deny_device}
use cgroups_rs.Fs.Cpuset.{set_cpus, set_mems}
use cgroups_rs.Manager.Error.{Error, invalid_linux_resource, invalid_argument}
use cgroups_rs.Manager.Conv.{cpu_shares_to_cgroup_v2}
use cgroups_rs.Manager.Memory.{controller, from_fs, when}

-- The fields of the runtime specification's `LinuxCpu` that the manager reads.
pub record LinuxCpu : Type 0 where
  pub shares : Option ℕ
  pub quota : Option ℤ
  pub period : Option ℕ
  pub realtime_runtime : Option ℤ
  pub realtime_period : Option ℕ
  pub cpus : Option Text
  pub mems : Option Text

-- `LinuxDeviceCgroup`, with the text of its type or of the default type.
pub record LinuxDeviceCgroup : Type 0 where
  pub allow : Bool
  pub typ : Text
  pub major : Option ℤ
  pub minor : Option ℤ
  pub access : Option Text

-- The limit of `set_pids`.
abbrev pub pid_limit : ℤ → MaxValue
pid_limit limit = if ltb_ℤ (pos 0) limit then value limit else max

abbrev first : Text → Option ℕ
first [] = none
first (c ∷ s) = some c

-- The letters that are a permission; others are passed over.
unfoldable pub known_permissions : Text → List DevicePermissions
known_permissions [] = []
known_permissions (c ∷ s) =
    let rest = known_permissions s in
    if c == b'r'
    then read ∷ rest
    else if c == b'w'
    then write ∷ rest
    else if c == b'm'
    then mk_nod ∷ rest
    else rest

module _ (h : Host) where
  open h use {State}

  unfoldable pub set_cpuset : Option Place → LinuxCpu → Io State Error (Unit {0})
  unfolding set_cpus set_mems
  set_cpuset place cpu = do
    c ← controller h place
    when_some cpu.cpus (λ cpus. from_fs (set_cpus h c cpus))
    when_some cpu.mems (λ mems. from_fs (set_mems h c mems))

  abbrev set_weight : Place → ℕ → Io State Error (Unit {0})
  set_weight c shares = when (not (shares == 0)) (from_fs (set_shares h c shares))

  -- The version is the control group's.
  unfoldable pub set_cpu : Bool → Option Place → LinuxCpu → Io State Error (Unit {0})
  unfolding set_shares set_cfs_quota set_cfs_period set_rt_runtime set_rt_period_us
      cpu_shares_to_cgroup_v2
  set_cpu v2 place cpu = do
    c ← controller h place
    when_some cpu.shares (λ s. set_weight c (if v2 then cpu_shares_to_cgroup_v2 s else s))
    when_some cpu.quota (λ q. from_fs (set_cfs_quota h c q))
    when_some cpu.period (λ p. from_fs (set_cfs_period h c p))
    when_some cpu.realtime_runtime (λ r. from_fs (set_rt_runtime h c r))
    when_some cpu.realtime_period (λ p. from_fs (set_rt_period_us h c p))

  unfoldable pub set_pids : Option Place → ℤ → Io State Error (Unit {0})
  unfolding set_pid_max
  set_pids place limit = do c ← controller h place; from_fs (set_pid_max h c (pid_limit limit))

  unfoldable pub set_device : Place → LinuxDeviceCgroup → Io State Error (Unit {0})
  unfolding write_rule type_from_char known_permissions
  set_device c device = do
    devtype ← lift (ok_or (type_from_char (first device.typ)) invalid_linux_resource)
    (let perm = known_permissions (unwrap_or device.access []) in
        let major = unwrap_or device.major (pos 0) in
        let minor = unwrap_or device.minor (pos 0) in
        if device.allow
        then from_fs (allow_device h c devtype major minor perm)
        else from_fs (deny_device h c devtype major minor perm))

  unfoldable pub set_devices : Option Place → List LinuxDeviceCgroup → Io State Error (Unit {0})
  unfolding try_for_each set_device
  set_devices place devices = do c ← controller h place; try_for_each (set_device c) devices

  -- `Manager::freeze`
  unfoldable pub change_state : Option Place → FreezerState → Io State Error (Unit {0})
  unfolding Freezer.freeze Freezer.thaw
  change_state place thawed = do c ← controller h place; from_fs (Freezer.thaw h c)
  change_state place frozen = do c ← controller h place; from_fs (Freezer.freeze h c)
  change_state place freezing = do c ← controller h place; raise invalid_argument
