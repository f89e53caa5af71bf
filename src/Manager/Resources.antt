-- ===== src/Manager/Resources.antt =====
-- manager/fs.rs: the block I/O, huge page and network resources of a container. A controller that the
-- control group does not have is `none`.
use cgroups_rs.Base.{ℕ, ℤ, as_u64, List, Option, if◌then◌else◌}
use cgroups_rs.Text.{Text}
use cgroups_rs.Io.{Io, ◌>>=◌, ◌>>◌, pure, when_some, try_for_each}
use cgroups_rs.Fs.Host.{Host, Place}
use cgroups_rs.Fs.Blkio.Settings.{
  set_weight, set_leaf_weight, set_weight_for_device, set_leaf_weight_for_device,
  throttle_read_bps_for_device, throttle_read_iops_for_device, throttle_write_bps_for_device,
  throttle_write_iops_for_device,
}
use cgroups_rs.Fs.Hugetlb.{size_supported, set_limit_in_bytes}
use cgroups_rs.Fs.NetCls.{set_class}
use cgroups_rs.Fs.NetPrio.{set_if_prio}
use cgroups_rs.Manager.Error.{Error}
use cgroups_rs.Manager.Memory.{controller, from_fs}

-- The fields of the runtime specification's records that the manager reads.
pub record LinuxWeightDevice : Type 0 where
  pub major : ℤ
  pub minor : ℤ
  pub weight : Option ℕ
  pub leaf_weight : Option ℕ

pub record LinuxThrottleDevice : Type 0 where
  pub major : ℤ
  pub minor : ℤ
  pub rate : ℕ

pub record LinuxBlockIo : Type 0 where
  pub weight : Option ℕ
  pub leaf_weight : Option ℕ
  pub weight_device : Option (List LinuxWeightDevice)
  pub throttle_read_bps_device : Option (List LinuxThrottleDevice)
  pub throttle_write_bps_device : Option (List LinuxThrottleDevice)
  pub throttle_read_iops_device : Option (List LinuxThrottleDevice)
  pub throttle_write_iops_device : Option (List LinuxThrottleDevice)

pub record LinuxHugepageLimit : Type 0 where
  pub page_size : Text
  pub limit : ℤ

pub record LinuxInterfacePriority : Type 0 where
  pub name : Text
  pub priority : ℕ

pub record LinuxNetwork : Type 0 where
  pub class_id : Option ℕ
  pub priorities : Option (List LinuxInterfacePriority)

module _ (h : Host) where
  open h use {State}

  abbrev set_device_weights : Place → LinuxWeightDevice → Io State Error (Unit {0})
  set_device_weights c device =
      let major = as_u64 device.major in
      let minor = as_u64 device.minor in
      when_some device.weight (λ w. from_fs (set_weight_for_device h c major minor w))
      >> when_some device.leaf_weight (λ w. from_fs (set_leaf_weight_for_device h c major minor w))

  -- The limits of one kind, by the controller's function for it.
  abbrev set_rates :
      (ℕ → ℕ → ℕ → Io State Error (Unit {0}))
      → Option (List LinuxThrottleDevice)
      → Io State Error (Unit {0})
  set_rates throttle devices =
      when_some devices (try_for_each (λ d. throttle (as_u64 d.major) (as_u64 d.minor) d.rate))

  unfoldable pub set_blkio : Option Place → LinuxBlockIo → Io State Error (Unit {0})
  unfolding set_weight set_leaf_weight set_weight_for_device set_leaf_weight_for_device try_for_each
      throttle_read_bps_for_device throttle_write_bps_for_device throttle_read_iops_for_device
      throttle_write_iops_for_device
  set_blkio place blkio = do
    c ← controller h place
    when_some blkio.weight (λ w. from_fs (set_weight h c w))
    when_some blkio.leaf_weight (λ w. from_fs (set_leaf_weight h c w))
    when_some blkio.weight_device (try_for_each (set_device_weights c))
    set_rates (λ a b r. from_fs (throttle_read_bps_for_device h c a b r))
        blkio.throttle_read_bps_device
    set_rates (λ a b r. from_fs (throttle_write_bps_for_device h c a b r))
        blkio.throttle_write_bps_device
    set_rates (λ a b r. from_fs (throttle_read_iops_for_device h c a b r))
        blkio.throttle_read_iops_device
    set_rates (λ a b r. from_fs (throttle_write_iops_for_device h c a b r))
        blkio.throttle_write_iops_device

  -- A page size that the system does not have is passed over.
  unfoldable pub set_hugepage : List Text → Place → LinuxHugepageLimit → Io State Error (Unit {0})
  unfolding size_supported set_limit_in_bytes
  set_hugepage sizes c limit =
      if size_supported sizes limit.page_size
      then from_fs (set_limit_in_bytes h c limit.page_size (as_u64 limit.limit))
      else pure tt

  unfoldable pub set_hugepages :
      List Text → Option Place → List LinuxHugepageLimit → Io State Error (Unit {0})
  unfolding set_hugepage try_for_each
  set_hugepages sizes place hugepage_limits = do
    c ← controller h place
    try_for_each (set_hugepage sizes c) hugepage_limits

  -- The controllers of classes and of priorities.
  unfoldable pub set_network :
      Option Place → Option Place → LinuxNetwork → Io State Error (Unit {0})
  unfolding set_class set_if_prio try_for_each
  set_network cls prio network = do
    when_some network.class_id
        (λ class_id. controller h cls >>= λ c. from_fs (set_class h c class_id))
    when_some network.priorities (λ priorities. controller h prio >>= λ c.
        try_for_each (λ p. from_fs (set_if_prio h c p.name p.priority)) priorities)
