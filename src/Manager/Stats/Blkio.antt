-- ===== src/Manager/Stats/Blkio.antt =====
-- stats.rs and manager/fs.rs: the block I/O statistics of a container.
use cgroups_rs.Base.{List, [], Bool, Option, if◌then◌else◌, is_empty}
use cgroups_rs.Io.{Io, ◌>>=◌, pure, default_to}
use cgroups_rs.Fs.Host.{Host, Place}
use cgroups_rs.Fs.Blkio.Statistics.{BlkIo, blkio}
use cgroups_rs.Manager.Error.{Error}
use cgroups_rs.Manager.Memory.{controller, from_fs}
use cgroups_rs.Manager.BlkioStat.{BlkioStat, from_io_services, from_io_stats, from_blk_io_data}

pub record BlkioCgroupStats : Type 0 where
  pub io_service_bytes_recursive : List BlkioStat
  pub io_serviced_recursive : List BlkioStat
  pub io_queued_recursive : List BlkioStat
  pub io_service_time_recursive : List BlkioStat
  pub io_wait_time_recursive : List BlkioStat
  pub io_merged_recursive : List BlkioStat
  pub io_time_recursive : List BlkioStat
  pub sectors_recursive : List BlkioStat

abbrev default_blkio_stats : BlkioCgroupStats
default_blkio_stats = record {
  io_service_bytes_recursive = [];
  io_serviced_recursive = [];
  io_queued_recursive = [];
  io_service_time_recursive = [];
  io_wait_time_recursive = [];
  io_merged_recursive = [];
  io_time_recursive = [];
  sectors_recursive = [];
}

-- Without statistics over the groups below, those of the throttling are taken.
unfoldable pub stats_of_blkio : BlkIo → BlkioCgroupStats
unfolding from_io_services from_blk_io_data
stats_of_blkio b =
    if is_empty b.io_serviced_recursive
    then record default_blkio_stats {
      io_service_bytes_recursive = from_io_services b.throttle.io_service_bytes;
      io_serviced_recursive = from_io_services b.throttle.io_serviced;
    }
    else record {
      io_service_bytes_recursive = from_io_services b.io_service_bytes_recursive;
      io_serviced_recursive = from_io_services b.io_serviced_recursive;
      io_queued_recursive = from_io_services b.io_queued_recursive;
      io_service_time_recursive = from_io_services b.io_service_time_recursive;
      io_wait_time_recursive = from_io_services b.io_wait_time_recursive;
      io_merged_recursive = from_io_services b.io_merged_recursive;
      io_time_recursive = from_blk_io_data b.time_recursive;
      sectors_recursive = from_blk_io_data b.sectors_recursive;
    }

module _ (h : Host) where
  open h use {State}

  unfoldable pub blkio_stats_v1 : Option Place → Io State Error BlkioCgroupStats
  unfolding blkio stats_of_blkio
  blkio_stats_v1 place = do c ← controller h place; b ← from_fs (blkio h c); pure (stats_of_blkio b)

  unfoldable pub blkio_stats_v2 : Option Place → Io State Error BlkioCgroupStats
  unfolding blkio from_io_stats
  blkio_stats_v2 place = do
    c ← controller h place
    b ← from_fs (blkio h c)
    pure (record default_blkio_stats { io_service_bytes_recursive = from_io_stats b.io_stat })

  unfoldable pub blkio_cgroup_stats : Bool → Option Place → Io State Error BlkioCgroupStats
  unfolding blkio_stats_v1 blkio_stats_v2
  blkio_cgroup_stats v2 place =
      default_to default_blkio_stats (if v2 then blkio_stats_v2 place else blkio_stats_v1 place)
