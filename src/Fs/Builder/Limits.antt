-- ===== src/Fs/Builder/Limits.antt =====
-- fs/cgroup_builder.rs: the limits of memory, processes and processors. A setter keeps what the
-- others have set.
use cgroups_rs.Base.{ℕ, ℤ, some}
use cgroups_rs.Text.{Text}
use cgroups_rs.Fs.MaxValue.{MaxValue}
use cgroups_rs.Fs.Builder.{CgroupBuilder}

pub record MemoryResourceBuilder : Type 0 where
  pub cgroup : CgroupBuilder

unfoldable pub kernel_memory_limit : ℤ → MemoryResourceBuilder → MemoryResourceBuilder
kernel_memory_limit v b = record b {
  cgroup = record b.cgroup {
    resources = record b.cgroup.resources {
      memory = record b.cgroup.resources.memory { kernel_memory_limit = some v };
    };
  };
}

unfoldable pub memory_hard_limit : ℤ → MemoryResourceBuilder → MemoryResourceBuilder
memory_hard_limit v b = record b {
  cgroup = record b.cgroup {
    resources = record b.cgroup.resources {
      memory = record b.cgroup.resources.memory { memory_hard_limit = some v };
    };
  };
}

unfoldable pub memory_soft_limit : ℤ → MemoryResourceBuilder → MemoryResourceBuilder
memory_soft_limit v b = record b {
  cgroup = record b.cgroup {
    resources = record b.cgroup.resources {
      memory = record b.cgroup.resources.memory { memory_soft_limit = some v };
    };
  };
}

unfoldable pub kernel_tcp_memory_limit : ℤ → MemoryResourceBuilder → MemoryResourceBuilder
kernel_tcp_memory_limit v b = record b {
  cgroup = record b.cgroup {
    resources = record b.cgroup.resources {
      memory = record b.cgroup.resources.memory { kernel_tcp_memory_limit = some v };
    };
  };
}

unfoldable pub memory_swap_limit : ℤ → MemoryResourceBuilder → MemoryResourceBuilder
memory_swap_limit v b = record b {
  cgroup = record b.cgroup {
    resources = record b.cgroup.resources {
      memory = record b.cgroup.resources.memory { memory_swap_limit = some v };
    };
  };
}

unfoldable pub swappiness : ℕ → MemoryResourceBuilder → MemoryResourceBuilder
swappiness v b = record b {
  cgroup = record b.cgroup {
    resources = record b.cgroup.resources {
      memory = record b.cgroup.resources.memory { swappiness = some v };
    };
  };
}

pub record PidResourceBuilder : Type 0 where
  pub cgroup : CgroupBuilder

unfoldable pub maximum_number_of_processes : MaxValue → PidResourceBuilder → PidResourceBuilder
maximum_number_of_processes v b = record b {
  cgroup = record b.cgroup {
    resources = record b.cgroup.resources {
      pid = record b.cgroup.resources.pid { maximum_number_of_processes = some v };
    };
  };
}

pub record CpuResourceBuilder : Type 0 where
  pub cgroup : CgroupBuilder

unfoldable pub cpus : Text → CpuResourceBuilder → CpuResourceBuilder
cpus v b = record b {
  cgroup = record b.cgroup {
    resources = record b.cgroup.resources { cpu = record b.cgroup.resources.cpu { cpus = some v } };
  };
}

unfoldable pub mems : Text → CpuResourceBuilder → CpuResourceBuilder
mems v b = record b {
  cgroup = record b.cgroup {
    resources = record b.cgroup.resources { cpu = record b.cgroup.resources.cpu { mems = some v } };
  };
}

unfoldable pub shares : ℕ → CpuResourceBuilder → CpuResourceBuilder
shares v b = record b {
  cgroup = record b.cgroup {
    resources = record b.cgroup.resources {
      cpu = record b.cgroup.resources.cpu { shares = some v };
    };
  };
}

unfoldable pub quota : ℤ → CpuResourceBuilder → CpuResourceBuilder
quota v b = record b {
  cgroup = record b.cgroup {
    resources = record b.cgroup.resources {
      cpu = record b.cgroup.resources.cpu { quota = some v };
    };
  };
}

unfoldable pub period : ℕ → CpuResourceBuilder → CpuResourceBuilder
period v b = record b {
  cgroup = record b.cgroup {
    resources = record b.cgroup.resources {
      cpu = record b.cgroup.resources.cpu { period = some v };
    };
  };
}

unfoldable pub realtime_runtime : ℤ → CpuResourceBuilder → CpuResourceBuilder
realtime_runtime v b = record b {
  cgroup = record b.cgroup {
    resources = record b.cgroup.resources {
      cpu = record b.cgroup.resources.cpu { realtime_runtime = some v };
    };
  };
}

unfoldable pub realtime_period : ℕ → CpuResourceBuilder → CpuResourceBuilder
realtime_period v b = record b {
  cgroup = record b.cgroup {
    resources = record b.cgroup.resources {
      cpu = record b.cgroup.resources.cpu { realtime_period = some v };
    };
  };
}
