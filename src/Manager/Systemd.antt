-- ===== src/Manager/Systemd.antt =====
-- manager/systemd.rs: the manager that works through systemd (`SystemdManager` and its part of the
-- trait `Manager`). The client is in the state, beside the operating system.
pub mod Quota
pub mod Names
pub mod Parents
mod Tests
use cgroups_rs.Base.{
  ℕ, ℤ, pos, minus_one, ◌+◌, ◌*◌, ◌/◌, ◌%◌, ◌^◌, Bool, true, false, not, ◌&&◌, ◌||◌, List, [], ◌∷◌,
  ◌++◌, Option, none, some, Outcome, Result, ok, err, ◌==◌, ltb_ℤ, eq_ℤ, as_u64, unwrap_or,
  if◌then◌else◌, is_empty,
}
use cgroups_rs.Text.{Text, codes, ends_with}
use cgroups_rs.Text.Split.{split, split_by}
use cgroups_rs.Dict.{Dict}
use cgroups_rs.Number.{max_u64}
use cgroups_rs.Io.{Io, ◌>>=◌, ◌>>◌, pure, raise, lift, lift_outcome, map_err}
use cgroups_rs.Fs.Host.{Host}
use cgroups_rs.Fs.Directories.{Directories}
use cgroups_rs.Fs.Freezer.{FreezerState, thawed, freezing, frozen}
use cgroups_rs.Systemd.Cpuset.Vectors.{BitVec}
use cgroups_rs.Systemd.Cpuset as Cpuset
use cgroups_rs.Systemd.Error as Systemd
use cgroups_rs.Systemd.Error.{SystemdResult}
use cgroups_rs.Systemd.Limits.{
  cpu_shares, cpu_period, cpu_quota, memory_limit, memory_low, memory_swap, tasks_max,
}
use cgroups_rs.Systemd.Slice.{expand_slice, slice_suffix, scope_suffix}
use cgroups_rs.Systemd.Props.{ZbusValues, default_cgroup, build}
use cgroups_rs.Systemd.Dbus.{Bus, MoreValues}
use cgroups_rs.Systemd.Dbus.Error as Dbus
use cgroups_rs.Systemd.Client.{SystemdClient}
use cgroups_rs.Systemd.Client as Client
use cgroups_rs.Manager.Error.{Error, ManagerResult, invalid_argument, systemd_cgroup, systemd_dbus}
use cgroups_rs.Manager.Conv.{cpu_shares_to_cgroup_v2, memory_swap_to_cgroup_v2}
use cgroups_rs.Manager.Memory.{LinuxMemory}
use cgroups_rs.Manager.Limits.{LinuxCpu}
use cgroups_rs.Manager.Fs.{FsManager, LinuxResources, join_path}
use cgroups_rs.Manager.Fs as Fs

abbrev pub default_slice : Text
default_slice = codes "system.slice"

unfoldable pub new_unit_name : Text → Text → Text
unfolding ends_with
new_unit_name scope_prefix name =
    if not (ends_with slice_suffix name)
    then (if is_empty scope_prefix
        then name ++ scope_suffix
        else scope_prefix ++ b'-' ∷ (name ++ scope_suffix))
    else name

abbrev slice_and_unit : List Text → ManagerResult (Text × Text)
slice_and_unit (slice ∷ scope_prefix ∷ name ∷ []) =
    ok (if is_empty slice then default_slice else slice, new_unit_name scope_prefix name)
slice_and_unit _ = err invalid_argument

unfoldable pub parse_slice_and_unit : Text → ManagerResult (Text × Text)
unfolding split_by new_unit_name
parse_slice_and_unit path = slice_and_unit (split b':' path)

abbrev pub default_cpu_quota_period : ℕ
default_cpu_quota_period = 100000

abbrev ms_to_us : ℕ → ℕ
ms_to_us ms = ms * 1000

abbrev s_to_us : ℕ → ℕ
s_to_us s = s * 1000000

-- Up to a multiple of 10 ms.
unfoldable pub rounded : ℕ → ℕ
rounded q = if q % ms_to_us 10 == 0 then q else (q / ms_to_us 10 + 1) * ms_to_us 10 % 2 ^ 64

-- The processor time in a second, from a period that is not 0 and a positive quota.
unfoldable pub quota_per_second : ℕ → ℕ → ℕ
unfolding rounded
quota_per_second quota period = rounded (quota * s_to_us 1 % 2 ^ 64 / period)

unfoldable pub systemd_quota : ℤ → ℕ → ℕ
unfolding quota_per_second
systemd_quota quota period =
    if ltb_ℤ (pos 0) quota
    then quota_per_second (as_u64 quota) (if period == 0 then default_cpu_quota_period else period)
    else max_u64

pub record SystemdManager : Type 0 where
  pub slice : Text
  pub unit : Text
  pub fs_manager : FsManager

module _ {S : Type 0} where
  -- `?` on a result of the crate's systemd module.
  abbrev pub from_systemd : {A : Type 0} → SystemdResult A → Io S Error A
  from_systemd r s = map_err systemd_cgroup (lift r) s

module _ (h : Host) (d : Directories h) (sizes : List Text) (b : BitVec) (z : ZbusValues)
    (more : MoreValues z) (bus : Bus h.State z) where
  open h use {State}
  open z use {Value, bool, str, uint64}

  abbrev pub Managing : Type 0 → Type 0
  Managing A = Io (SystemdClient z × State) Error A

  -- What the client and the manager of the file systems do for this manager.
  abbrev by_client : {A : Type 0} → Io (SystemdClient z × State) Dbus.Error A → Managing A
  by_client = map_err systemd_dbus

  abbrev by_fs : {A : Type 0} → Io State Error A → Managing A
  by_fs m (c, s) = let (r, t) = m s in (r, (c, t))

  unfoldable pub new : Bool → Text → Io State Error (SystemdManager × SystemdClient z)
  unfolding parse_slice_and_unit default_cgroup build expand_slice join_path Fs.new
  new unified path = do
    (slice, unit) ← lift (parse_slice_and_unit path)
    let props = build z unified (default_cgroup slice unit)
    expanded ← lift_outcome (expand_slice slice)
    slice_base ← from_systemd expanded
    fs_manager ← Fs.new h d sizes (join_path slice_base unit)
    pure (
      record { slice = slice; unit = unit; fs_manager = fs_manager },
      record { unit = unit; props = props },
    )

  -- The property of a processor or node list, if it is set.
  abbrev list_property :
      (Text → Outcome (SystemdResult (Text × List ℕ))) → Option Text → Managing (Dict Value)
  list_property f none = pure []
  list_property f (some list) = do
    named ← lift_outcome (f list)
    (id, mask) ← from_systemd named
    pure ((id, more.bytes mask) ∷ [])

  -- A limit's property, if the condition holds.
  abbrev limit_property : Bool → SystemdResult (Text × ℕ) → Managing (Dict Value)
  limit_property c r =
      if c then (from_systemd r >>= λ (id, value). pure ((id, uint64 value) ∷ [])) else pure []

  -- The new properties, in place of the vector they are pushed to.
  unfoldable pub set_cpuset : LinuxCpu → Managing (Dict Value)
  unfolding Cpuset.cpus Cpuset.mems
  set_cpuset cpu = do
    cpus ← list_property (Cpuset.cpus b) cpu.cpus
    mems ← list_property (Cpuset.mems b) cpu.mems
    pure (cpus ++ mems)

  abbrev shares_property : Bool → Option ℕ → Managing (Dict Value)
  shares_property two none = pure []
  shares_property two (some shares) =
      limit_property true (cpu_shares (if two then cpu_shares_to_cgroup_v2 shares else shares) two)

  abbrev is_set : ℤ → Bool
  is_set n = not (eq_ℤ n (pos 0))

  unfoldable pub set_cpu : Bool → LinuxCpu → Managing (Dict Value)
  unfolding cpu_shares cpu_period cpu_quota cpu_shares_to_cgroup_v2 systemd_quota
  set_cpu two cpu =
      let period = unwrap_or cpu.period 0 in
      let quota = unwrap_or cpu.quota (pos 0) in
      (shares_property two cpu.shares >>= λ shares.
      limit_property (not (period == 0)) (cpu_period period) >>= λ periods.
      limit_property (not (period == 0) || is_set quota) (cpu_quota (systemd_quota quota period))
      >>= λ quotas. pure (shares ++ (periods ++ quotas)))

  unfoldable pub set_memory : Bool → LinuxMemory → Managing (Dict Value)
  unfolding memory_limit memory_low memory_swap memory_swap_to_cgroup_v2
  set_memory two memory =
      let limit = unwrap_or memory.limit (pos 0) in
      let reservation = unwrap_or memory.reservation (pos 0) in
      let swap = unwrap_or memory.swap (pos 0) in
      (limit_property (is_set limit) (memory_limit limit two) >>= λ limits.
      limit_property (is_set reservation && two) (memory_low reservation two) >>= λ lows.
      (if is_set swap && two
        then (lift (memory_swap_to_cgroup_v2 swap limit) >>= λ swap.
            limit_property true (memory_swap swap two))
        else pure [])
      >>= λ swaps. pure (limits ++ (lows ++ swaps)))

  unfoldable pub set_pids : ℤ → Managing (Dict Value)
  unfolding tasks_max
  set_pids limit = limit_property (eq_ℤ limit minus_one || ltb_ℤ (pos 0) limit) (tasks_max limit)

  unfoldable pub set_term_timeout : ℕ → Managing (Unit {0})
  unfolding Client.set_properties
  set_term_timeout timeout_in_sec = by_client (
      Client.set_properties z more bus
        ((codes "TimeoutStopUSec", uint64 (timeout_in_sec * 1000000 % 2 ^ 64)) ∷ []))

  -- The unit starts with its first process, and the groups are made then.
  unfoldable pub add_proc : SystemdManager → ℕ → Managing (Unit {0})
  unfolding Client.exists Client.set_pid_prop Client.start Client.add_process Fs.create_cgroups
      Fs.subcgroup
  add_proc m pid = do
    there ← by_client (Client.on_bus z more bus (Client.exists z more bus))
    (if not there
        then (by_client (Client.set_pid_prop z more bus pid)
            >> by_client (Client.start z more bus)
            >> by_fs (Fs.create_cgroups h d sizes m.fs_manager))
        else (by_fs (Fs.subcgroup h d sizes m.fs_manager) >>= λ subcgroup.
            by_client (Client.add_process z more bus pid subcgroup)))

  unfoldable pub add_thread : SystemdManager → ℕ → Managing (Unit {0})
  unfolding add_proc
  add_thread m pid = add_proc m pid

  unfoldable pub destroy : Managing (Unit {0})
  unfolding Client.stop
  destroy = by_client (Client.stop z more bus)

  unfoldable pub freeze : FreezerState → Managing (Unit {0})
  unfolding Client.thaw Client.freeze
  freeze thawed = by_client (Client.thaw z more bus)
  freeze frozen = by_client (Client.freeze z more bus)
  freeze freezing = raise invalid_argument

  -- The properties of those resources that are set.
  abbrev of_some : {A : Type 0} → Option A → (A → Managing (Dict Value)) → Managing (Dict Value)
  of_some none f = pure []
  of_some (some a) f = f a

  abbrev of_cpu : Bool → LinuxCpu → Managing (Dict Value)
  of_cpu two cpu = do sets ← set_cpuset cpu; limits ← set_cpu two cpu; pure (sets ++ limits)

  unfoldable pub set : SystemdManager → LinuxResources → Managing (Unit {0})
  unfolding set_cpuset set_cpu set_memory set_pids Client.set_properties
  set m resources = do
    cpu ← of_some resources.cpu (of_cpu (Fs.v2 m.fs_manager))
    memory ← of_some resources.memory (set_memory (Fs.v2 m.fs_manager))
    pids ← of_some resources.pids set_pids
    by_client (Client.set_properties z more bus (cpu ++ (memory ++ pids)))
