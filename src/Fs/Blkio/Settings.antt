-- ===== src/Fs/Blkio/Settings.antt =====
-- fs/blkio.rs: the settings of the block I/O controller and `apply`.
use cgroups_rs.Base.{ℕ, List, [], ◌∷◌, ◌++◌, Option, if◌then◌else◌}
use cgroups_rs.Text.{Text, codes}
use cgroups_rs.Number.Print.{print}
use cgroups_rs.Dict.{Dict}
use cgroups_rs.Io.{Io, ◌>>◌, pure, update, for_each}
use cgroups_rs.Fs.Error.{Error}
use cgroups_rs.Fs.Host.{Host, Place, write_value, set}

pub record BlkIoDeviceResource : Type 0 where
  pub major : ℕ
  pub minor : ℕ
  pub weight : Option ℕ
  pub leaf_weight : Option ℕ

pub record BlkIoDeviceThrottleResource : Type 0 where
  pub major : ℕ
  pub minor : ℕ
  pub rate : ℕ

pub record BlkIoResources : Type 0 where
  pub weight : Option ℕ
  pub leaf_weight : Option ℕ
  pub weight_device : List BlkIoDeviceResource
  pub throttle_read_bps_device : List BlkIoDeviceThrottleResource
  pub throttle_read_iops_device : List BlkIoDeviceThrottleResource
  pub throttle_write_bps_device : List BlkIoDeviceThrottleResource
  pub throttle_write_iops_device : List BlkIoDeviceThrottleResource
  pub attrs : Dict Text

-- `{major}:{minor} {key}{value}`
abbrev pub device_line : ℕ → ℕ → Text → ℕ → Text
device_line major minor key value =
    print major ++ b':' ∷ (print minor ++ b' ' ∷ (key ++ print value))

module _ (h : Host) where
  open h use {State}

  unfoldable pub set_leaf_weight : Place → ℕ → Io State Error (Unit {0})
  unfolding write_value print
  set_leaf_weight c w = write_value h c (codes "blkio.leaf_weight") (print w)

  unfoldable pub set_leaf_weight_for_device : Place → ℕ → ℕ → ℕ → Io State Error (Unit {0})
  unfolding write_value print
  set_leaf_weight_for_device c major minor weight =
      write_value h c (codes "blkio.leaf_weight_device") (device_line major minor [] weight)

  unfoldable pub reset_stats : Place → Io State Error (Unit {0})
  unfolding write_value
  reset_stats c = write_value h c (codes "blkio.reset_stats") (codes "1")

  unfoldable pub throttle_read_bps_for_device : Place → ℕ → ℕ → ℕ → Io State Error (Unit {0})
  unfolding write_value print
  throttle_read_bps_for_device c major minor bps =
      if c.v2
      then write_value h c (codes "io.max") (device_line major minor (codes "rbps=") bps)
      else write_value h c (codes "blkio.throttle.read_bps_device") (device_line major minor [] bps)

  unfoldable pub throttle_read_iops_for_device : Place → ℕ → ℕ → ℕ → Io State Error (Unit {0})
  unfolding write_value print
  throttle_read_iops_for_device c major minor iops =
      if c.v2
      then write_value h c (codes "io.max") (device_line major minor (codes "riops=") iops)
      else write_value h c (codes "blkio.throttle.read_iops_device")
          (device_line major minor [] iops)

  unfoldable pub throttle_write_bps_for_device : Place → ℕ → ℕ → ℕ → Io State Error (Unit {0})
  unfolding write_value print
  throttle_write_bps_for_device c major minor bps =
      if c.v2
      then write_value h c (codes "io.max") (device_line major minor (codes "wbps=") bps)
      else write_value h c (codes "blkio.throttle.write_bps_device")
          (device_line major minor [] bps)

  unfoldable pub throttle_write_iops_for_device : Place → ℕ → ℕ → ℕ → Io State Error (Unit {0})
  unfolding write_value print
  throttle_write_iops_for_device c major minor iops =
      if c.v2
      then write_value h c (codes "io.max") (device_line major minor (codes "wiops=") iops)
      else write_value h c (codes "blkio.throttle.write_iops_device")
          (device_line major minor [] iops)

  unfoldable pub set_weight : Place → ℕ → Io State Error (Unit {0})
  unfolding write_value print
  set_weight c w =
      write_value h c (if c.v2 then codes "io.bfq.weight" else codes "blkio.weight") (print w)

  unfoldable pub set_weight_for_device : Place → ℕ → ℕ → ℕ → Io State Error (Unit {0})
  unfolding write_value print
  set_weight_for_device c major minor weight =
      write_value h c (if c.v2 then codes "io.bfq.weight" else codes "blkio.weight_device")
        (device_line major minor [] weight)

  -- The weights of one device.
  abbrev pub set_weights_of : Place → BlkIoDeviceResource → Io State Error (Unit {0})
  set_weights_of c dev =
      update (set_weight_for_device c dev.major dev.minor) dev.weight
      >> update (set_leaf_weight_for_device c dev.major dev.minor) dev.leaf_weight

  unfoldable pub apply : Place → BlkIoResources → Io State Error (Unit {0})
  unfolding set_weight set_leaf_weight set_weight_for_device set_leaf_weight_for_device for_each
      throttle_read_bps_for_device throttle_write_bps_for_device throttle_read_iops_for_device
      throttle_write_iops_for_device set
  apply c res = do
    update (set_weight c) res.weight
    update (set_leaf_weight c) res.leaf_weight
    for_each (set_weights_of c) res.weight_device
    for_each (λ dev. throttle_read_bps_for_device c dev.major dev.minor dev.rate)
        res.throttle_read_bps_device
    for_each (λ dev. throttle_write_bps_for_device c dev.major dev.minor dev.rate)
        res.throttle_write_bps_device
    for_each (λ dev. throttle_read_iops_for_device c dev.major dev.minor dev.rate)
        res.throttle_read_iops_device
    for_each (λ dev. throttle_write_iops_for_device c dev.major dev.minor dev.rate)
        res.throttle_write_iops_device
    for_each (λ kv. set h c kv.0 kv.1) res.attrs
    pure tt
