-- ===== src/Fs/Builder/Tests.antt =====
-- A builder with limits of memory and of block I/O.
use cgroups_rs.Base.{◌≡◌, refl, false, [], ◌∷◌, pos, some}
use cgroups_rs.Text.{codes}
use cgroups_rs.Fs.Blkio.Settings.{BlkIoDeviceThrottleResource}
use cgroups_rs.Fs.Builder.{new}
use cgroups_rs.Fs.Builder.Limits.{MemoryResourceBuilder, memory_hard_limit, swappiness}
use cgroups_rs.Fs.Builder.Lists.{BlkIoResourcesBuilder, throttle_iops, throttle_bps, read}

abbrev memory : MemoryResourceBuilder
memory = record { cgroup = new (codes "g") }

memory_test :
    ((swappiness 5 (memory_hard_limit (pos 1) memory)).cgroup.resources.memory.memory_hard_limit
      ≡ some (pos 1))
    × ((swappiness 5 (memory_hard_limit (pos 1) memory)).cgroup.resources.memory.swappiness
        ≡ some 5)
unfolding swappiness memory_hard_limit
memory_test = (refl, refl)

abbrev blkio : BlkIoResourcesBuilder
blkio = record { cgroup = new (codes "g"); throttling_iops = false }

abbrev rate : BlkIoDeviceThrottleResource
rate = record { major = 8; minor = 0; rate = 100 }

abbrev both : BlkIoResourcesBuilder
both = read rate (throttle_bps (read rate (throttle_iops blkio)))

-- Rates in operations and in bytes go into lists of their own.
read_test :
    (both.cgroup.resources.blkio.throttle_read_iops_device ≡ rate ∷ [])
    × (both.cgroup.resources.blkio.throttle_read_bps_device ≡ rate ∷ [])
unfolding read throttle_bps throttle_iops new
read_test = (refl, refl)
