-- ===== src/Systemd/Limits.antt =====
-- systemd/cpu.rs, systemd/memory.rs and systemd/pids.rs: the properties of limits, a key and a `u64`.
use cgroups_rs.Base.{ℕ, ℤ, Bool, ok, err, as_u64, if◌then◌else◌}
use cgroups_rs.Text.{Text, codes}
use cgroups_rs.Systemd.Error.{SystemdResult, cgroups_v1_not_supported}

abbrev pub Property : Type 0
Property = SystemdResult (Text × ℕ)

unfoldable pub cpu_shares : ℕ → Bool → Property
cpu_shares shares v2 = ok (if v2 then codes "CPUWeight" else codes "CPUShares", shares)

unfoldable pub cpu_period : ℕ → Property
cpu_period period = ok (codes "CPUQuotaPeriodUSec", period)

unfoldable pub cpu_quota : ℕ → Property
cpu_quota quota = ok (codes "CPUQuotaPerSecUSec", quota)

-- A limit of -1 is the largest `u64`, which systemd takes as infinity.
unfoldable pub memory_limit : ℤ → Bool → Property
memory_limit limit v2 = ok (if v2 then codes "MemoryMax" else codes "MemoryLimit", as_u64 limit)

unfoldable pub memory_low : ℤ → Bool → Property
memory_low low v2 = if v2 then ok (codes "MemoryLow", as_u64 low) else err cgroups_v1_not_supported

unfoldable pub memory_swap : ℤ → Bool → Property
memory_swap swap v2 =
    if v2 then ok (codes "MemorySwapMax", as_u64 swap) else err cgroups_v1_not_supported

unfoldable pub tasks_max : ℤ → Property
tasks_max limit = ok (codes "TasksMax", as_u64 limit)
