-- ===== src/Fs/Blkio/Statistics.antt =====
-- fs/blkio.rs: the statistics of the block I/O controller.
use cgroups_rs.Base.{ℕ, List, [], if◌then◌else◌}
use cgroups_rs.Text.{Text, codes}
use cgroups_rs.Io.{Io, ◌>>=◌, pure, lift, lift_outcome, default_to}
use cgroups_rs.Fs.Error.{Error}
use cgroups_rs.Fs.Host.{Host, Place}
use cgroups_rs.Fs.Read.{read_from, read_u64_from, read_string_from}
use cgroups_rs.Fs.Blkio.{
  BlkIoData, IoService, IoStatLine, parse_io_service, parse_io_service_total, parse_blkio_data,
  parse_io_stat,
}

pub record BlkIoThrottle : Type 0 where
  pub io_service_bytes : List IoService
  pub io_service_bytes_total : ℕ
  pub io_service_bytes_recursive : List IoService
  pub io_service_bytes_recursive_total : ℕ
  pub io_serviced : List IoService
  pub io_serviced_total : ℕ
  pub io_serviced_recursive : List IoService
  pub io_serviced_recursive_total : ℕ
  pub read_bps_device : List BlkIoData
  pub read_iops_device : List BlkIoData
  pub write_bps_device : List BlkIoData
  pub write_iops_device : List BlkIoData

pub record BlkIo : Type 0 where
  pub io_merged : List IoService
  pub io_merged_total : ℕ
  pub io_merged_recursive : List IoService
  pub io_merged_recursive_total : ℕ
  pub io_queued : List IoService
  pub io_queued_total : ℕ
  pub io_queued_recursive : List IoService
  pub io_queued_recursive_total : ℕ
  pub io_service_bytes : List IoService
  pub io_service_bytes_total : ℕ
  pub io_service_bytes_recursive : List IoService
  pub io_service_bytes_recursive_total : ℕ
  pub io_serviced : List IoService
  pub io_serviced_total : ℕ
  pub io_serviced_recursive : List IoService
  pub io_serviced_recursive_total : ℕ
  pub io_service_time : List IoService
  pub io_service_time_total : ℕ
  pub io_service_time_recursive : List IoService
  pub io_service_time_recursive_total : ℕ
  pub io_wait_time : List IoService
  pub io_wait_time_total : ℕ
  pub io_wait_time_recursive : List IoService
  pub io_wait_time_recursive_total : ℕ
  pub leaf_weight : ℕ
  pub leaf_weight_device : List BlkIoData
  pub sectors : List BlkIoData
  pub sectors_recursive : List BlkIoData
  pub throttle : BlkIoThrottle
  pub time : List BlkIoData
  pub time_recursive : List BlkIoData
  pub weight : ℕ
  pub weight_device : List BlkIoData
  pub io_stat : List IoStatLine

abbrev default_throttle : BlkIoThrottle
default_throttle = record {
  io_service_bytes = [];
  io_service_bytes_total = 0;
  io_service_bytes_recursive = [];
  io_service_bytes_recursive_total = 0;
  io_serviced = [];
  io_serviced_total = 0;
  io_serviced_recursive = [];
  io_serviced_recursive_total = 0;
  read_bps_device = [];
  read_iops_device = [];
  write_bps_device = [];
  write_iops_device = [];
}

abbrev pub default_blkio : BlkIo
default_blkio = record {
  io_merged = [];
  io_merged_total = 0;
  io_merged_recursive = [];
  io_merged_recursive_total = 0;
  io_queued = [];
  io_queued_total = 0;
  io_queued_recursive = [];
  io_queued_recursive_total = 0;
  io_service_bytes = [];
  io_service_bytes_total = 0;
  io_service_bytes_recursive = [];
  io_service_bytes_recursive_total = 0;
  io_serviced = [];
  io_serviced_total = 0;
  io_serviced_recursive = [];
  io_serviced_recursive_total = 0;
  io_service_time = [];
  io_service_time_total = 0;
  io_service_time_recursive = [];
  io_service_time_recursive_total = 0;
  io_wait_time = [];
  io_wait_time_total = 0;
  io_wait_time_recursive = [];
  io_wait_time_recursive_total = 0;
  leaf_weight = 0;
  leaf_weight_device = [];
  sectors = [];
  sectors_recursive = [];
  throttle = default_throttle;
  time = [];
  time_recursive = [];
  weight = 0;
  weight_device = [];
  io_stat = [];
}

module _ (h : Host) where
  open h use {State}

  unfoldable pub services : Place → Text → Io State Error (List IoService)
  unfolding read_string_from parse_io_service
  services c file =
      default_to []
        (read_string_from h c file >>= λ s. lift_outcome (parse_io_service s) >>= λ r. lift r)

  unfoldable pub total : Place → Text → Io State Error ℕ
  unfolding read_string_from parse_io_service_total
  total c file = default_to 0 (read_string_from h c file >>= λ s. lift (parse_io_service_total s))

  unfoldable pub per_device : Place → Text → Io State Error (List BlkIoData)
  unfolding read_string_from parse_blkio_data
  per_device c file =
      default_to []
        (read_string_from h c file >>= λ s. lift_outcome (parse_blkio_data s) >>= λ r. lift r)

  unfoldable pub number : Place → Text → Io State Error ℕ
  unfolding read_from
  number c file = default_to 0 (read_u64_from h c file)

  unfoldable pub blkio_v2 : Place → Io State Error BlkIo
  unfolding read_string_from parse_io_stat
  blkio_v2 c = do
    io_stat ←
        default_to []
          (read_string_from h c (codes "io.stat") >>= λ s. lift_outcome (parse_io_stat s))
    pure (record default_blkio { io_stat = io_stat })

  -- The field `throttle`.
  unfoldable pub throttle_stats : Place → Io State Error BlkIoThrottle
  unfolding services total per_device
  throttle_stats c = do
    io_service_bytes ← services c (codes "blkio.throttle.io_service_bytes")
    io_service_bytes_total ← total c (codes "blkio.throttle.io_service_bytes")
    io_service_bytes_recursive ← services c (codes "blkio.throttle.io_service_bytes_recursive")
    io_service_bytes_recursive_total ← total c (codes "blkio.throttle.io_service_bytes_recursive")
    io_serviced ← services c (codes "blkio.throttle.io_serviced")
    io_serviced_total ← total c (codes "blkio.throttle.io_serviced")
    io_serviced_recursive ← services c (codes "blkio.throttle.io_serviced_recursive")
    io_serviced_recursive_total ← total c (codes "blkio.throttle.io_serviced_recursive")
    read_bps_device ← per_device c (codes "blkio.throttle.read_bps_device")
    read_iops_device ← per_device c (codes "blkio.throttle.read_iops_device")
    write_bps_device ← per_device c (codes "blkio.throttle.write_bps_device")
    write_iops_device ← per_device c (codes "blkio.throttle.write_iops_device")
    pure (record {
      io_service_bytes = io_service_bytes;
      io_service_bytes_total = io_service_bytes_total;
      io_service_bytes_recursive = io_service_bytes_recursive;
      io_service_bytes_recursive_total = io_service_bytes_recursive_total;
      io_serviced = io_serviced;
      io_serviced_total = io_serviced_total;
      io_serviced_recursive = io_serviced_recursive;
      io_serviced_recursive_total = io_serviced_recursive_total;
      read_bps_device = read_bps_device;
      read_iops_device = read_iops_device;
      write_bps_device = write_bps_device;
      write_iops_device = write_iops_device;
    })

  unfoldable pub blkio_v1 : Place → Io State Error BlkIo
  unfolding services total per_device number throttle_stats
  blkio_v1 c = do
    io_merged ← services c (codes "blkio.io_merged")
    io_merged_total ← total c (codes "blkio.io_merged")
    io_merged_recursive ← services c (codes "blkio.io_merged_recursive")
    io_merged_recursive_total ← total c (codes "blkio.io_merged_recursive")
    io_queued ← services c (codes "blkio.io_queued")
    io_queued_total ← total c (codes "blkio.io_queued")
    io_queued_recursive ← services c (codes "blkio.io_queued_recursive")
    io_queued_recursive_total ← total c (codes "blkio.io_queued_recursive")
    io_service_bytes ← services c (codes "blkio.io_service_bytes")
    io_service_bytes_total ← total c (codes "blkio.io_service_bytes")
    io_service_bytes_recursive ← services c (codes "blkio.io_service_bytes_recursive")
    io_service_bytes_recursive_total ← total c (codes "blkio.io_service_bytes_recursive")
    io_serviced ← services c (codes "blkio.io_serviced")
    io_serviced_total ← total c (codes "blkio.io_serviced")
    io_serviced_recursive ← services c (codes "blkio.io_serviced_recursive")
    io_serviced_recursive_total ← total c (codes "blkio.io_serviced_recursive")
    io_service_time ← services c (codes "blkio.io_service_time")
    io_service_time_total ← total c (codes "blkio.io_service_time")
    io_service_time_recursive ← services c (codes "blkio.io_service_time_recursive")
    io_service_time_recursive_total ← total c (codes "blkio.io_service_time_recursive")
    io_wait_time ← services c (codes "blkio.io_wait_time")
    io_wait_time_total ← total c (codes "blkio.io_wait_time")
    io_wait_time_recursive ← services c (codes "blkio.io_wait_time_recursive")
    io_wait_time_recursive_total ← total c (codes "blkio.io_wait_time_recursive")
    leaf_weight ← number c (codes "blkio.leaf_weight")
    leaf_weight_device ← per_device c (codes "blkio.leaf_weight_device")
    sectors ← per_device c (codes "blkio.sectors")
    sectors_recursive ← per_device c (codes "blkio.sectors_recursive")
    throttle ← throttle_stats c
    time ← per_device c (codes "blkio.time")
    time_recursive ← per_device c (codes "blkio.time_recursive")
    weight ← number c (codes "blkio.weight")
    weight_device ← per_device c (codes "blkio.weight_device")
    pure (record {
      io_merged = io_merged;
      io_merged_total = io_merged_total;
      io_merged_recursive = io_merged_recursive;
      io_merged_recursive_total = io_merged_recursive_total;
      io_queued = io_queued;
      io_queued_total = io_queued_total;
      io_queued_recursive = io_queued_recursive;
      io_queued_recursive_total = io_queued_recursive_total;
      io_service_bytes = io_service_bytes;
      io_service_bytes_total = io_service_bytes_total;
      io_service_bytes_recursive = io_service_bytes_recursive;
      io_service_bytes_recursive_total = io_service_bytes_recursive_total;
      io_serviced = io_serviced;
      io_serviced_total = io_serviced_total;
      io_serviced_recursive = io_serviced_recursive;
      io_serviced_recursive_total = io_serviced_recursive_total;
      io_service_time = io_service_time;
      io_service_time_total = io_service_time_total;
      io_service_time_recursive = io_service_time_recursive;
      io_service_time_recursive_total = io_service_time_recursive_total;
      io_wait_time = io_wait_time;
      io_wait_time_total = io_wait_time_total;
      io_wait_time_recursive = io_wait_time_recursive;
      io_wait_time_recursive_total = io_wait_time_recursive_total;
      leaf_weight = leaf_weight;
      leaf_weight_device = leaf_weight_device;
      sectors = sectors;
      sectors_recursive = sectors_recursive;
      throttle = throttle;
      time = time;
      time_recursive = time_recursive;
      weight = weight;
      weight_device = weight_device;
      io_stat = [];
    })

  unfoldable pub blkio : Place → Io State Error BlkIo
  unfolding blkio_v1 blkio_v2
  blkio c = if c.v2 then blkio_v2 c else blkio_v1 c
