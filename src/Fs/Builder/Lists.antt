-- ===== src/Fs/Builder/Lists.antt =====
-- fs/cgroup_builder.rs: the lists of devices, priorities, huge pages and block I/O limits. An item
-- goes behind those that are there.
use cgroups_rs.Base.{ℕ, Bool, true, false, [], ◌∷◌, ◌++◌, some, if◌then◌else◌}
use cgroups_rs.Fs.Devices.{DeviceResource}
use cgroups_rs.Fs.NetPrio.{NetworkPriority}
use cgroups_rs.Fs.Hugetlb.{HugePageResource}
use cgroups_rs.Fs.Blkio.Settings.{BlkIoDeviceResource, BlkIoDeviceThrottleResource, BlkIoResources}
use cgroups_rs.Fs.Builder.{CgroupBuilder}

pub record DeviceResourceBuilder : Type 0 where
  pub cgroup : CgroupBuilder

unfoldable pub device : DeviceResource → DeviceResourceBuilder → DeviceResourceBuilder
device item b = record b {
  cgroup = record b.cgroup {
    resources = record b.cgroup.resources { devices = b.cgroup.resources.devices ++ item ∷ [] };
  };
}

pub record NetworkResourceBuilder : Type 0 where
  pub cgroup : CgroupBuilder

unfoldable pub class_id : ℕ → NetworkResourceBuilder → NetworkResourceBuilder
class_id v b = record b {
  cgroup = record b.cgroup {
    resources = record b.cgroup.resources {
      network = record b.cgroup.resources.network { class_id = some v };
    };
  };
}

unfoldable pub priority : NetworkPriority → NetworkResourceBuilder → NetworkResourceBuilder
priority item b = record b {
  cgroup = record b.cgroup {
    resources = record b.cgroup.resources {
      network = record b.cgroup.resources.network {
        priorities = b.cgroup.resources.network.priorities ++ item ∷ [];
      };
    };
  };
}

pub record HugepagesResourceBuilder : Type 0 where
  pub cgroup : CgroupBuilder

unfoldable pub limit : HugePageResource → HugepagesResourceBuilder → HugepagesResourceBuilder
limit item b = record b {
  cgroup = record b.cgroup {
    resources = record b.cgroup.resources {
      hugepages = record b.cgroup.resources.hugepages {
        limits = b.cgroup.resources.hugepages.limits ++ item ∷ [];
      };
    };
  };
}

pub record BlkIoResourcesBuilder : Type 0 where
  pub cgroup : CgroupBuilder
  pub throttling_iops : Bool

unfoldable pub weight : ℕ → BlkIoResourcesBuilder → BlkIoResourcesBuilder
weight v b = record b {
  cgroup = record b.cgroup {
    resources = record b.cgroup.resources {
      blkio = record b.cgroup.resources.blkio { weight = some v };
    };
  };
}

unfoldable pub leaf_weight : ℕ → BlkIoResourcesBuilder → BlkIoResourcesBuilder
leaf_weight v b = record b {
  cgroup = record b.cgroup {
    resources = record b.cgroup.resources {
      blkio = record b.cgroup.resources.blkio { leaf_weight = some v };
    };
  };
}

unfoldable pub weight_device : BlkIoDeviceResource → BlkIoResourcesBuilder → BlkIoResourcesBuilder
weight_device item b = record b {
  cgroup = record b.cgroup {
    resources = record b.cgroup.resources {
      blkio = record b.cgroup.resources.blkio {
        weight_device = b.cgroup.resources.blkio.weight_device ++ item ∷ [];
      };
    };
  };
}

unfoldable pub throttle_iops : BlkIoResourcesBuilder → BlkIoResourcesBuilder
throttle_iops b = record b { throttling_iops = true }

unfoldable pub throttle_bps : BlkIoResourcesBuilder → BlkIoResourcesBuilder
throttle_bps b = record b { throttling_iops = false }

abbrev with_blkio : BlkIoResourcesBuilder → BlkIoResources → BlkIoResourcesBuilder
with_blkio b r = record b {
  cgroup = record b.cgroup { resources = record b.cgroup.resources { blkio = r } };
}

unfoldable pub read : BlkIoDeviceThrottleResource → BlkIoResourcesBuilder → BlkIoResourcesBuilder
read throttle b =
    let r = b.cgroup.resources.blkio in
    if b.throttling_iops
    then with_blkio b
        (record r { throttle_read_iops_device = r.throttle_read_iops_device ++ throttle ∷ [] })
    else with_blkio b
        (record r { throttle_read_bps_device = r.throttle_read_bps_device ++ throttle ∷ [] })

unfoldable pub write : BlkIoDeviceThrottleResource → BlkIoResourcesBuilder → BlkIoResourcesBuilder
write throttle b =
    let r = b.cgroup.resources.blkio in
    if b.throttling_iops
    then with_blkio b
        (record r { throttle_write_iops_device = r.throttle_write_iops_device ++ throttle ∷ [] })
    else with_blkio b
        (record r { throttle_write_bps_device = r.throttle_write_bps_device ++ throttle ∷ [] })
