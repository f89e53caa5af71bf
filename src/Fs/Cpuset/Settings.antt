-- ===== src/Fs/Cpuset/Settings.antt =====
-- fs/cpuset.rs: the other settings of the controller, `apply` and the statistics.
use cgroups_rs.Base.{ℕ, ℤ, Bool, false, not, List, [], Option, none, some, if◌then◌else◌, ◌==◌}
use cgroups_rs.Text.{Text, codes}
use cgroups_rs.Number.Signed.{print_int}
use cgroups_rs.Io.{Io, ◌>>=◌, ◌>>◌, pure, raise, lift, default_to, or_else, update}
use cgroups_rs.Fs.Error.{Error, new, invalid_operation}
use cgroups_rs.Fs.Host.{Host, Place, write_value}
use cgroups_rs.Fs.Read.{read_from, read_u64_from, read_string_from}
use cgroups_rs.Fs.Directories.{Directories}
use cgroups_rs.Fs.Cpu.{CpuResources}
use cgroups_rs.Fs.Cpuset.{parse_range, set_cpus, set_mems}

pub record CpuSet : Type 0 where
  pub cpu_exclusive : Bool
  pub cpus : List (ℕ × ℕ)
  pub effective_cpus : List (ℕ × ℕ)
  pub effective_mems : List (ℕ × ℕ)
  pub mem_exclusive : Bool
  pub mem_hardwall : Bool
  pub memory_migrate : Bool
  pub memory_pressure : ℕ
  pub memory_pressure_enabled : Option Bool
  pub memory_spread_page : Bool
  pub memory_spread_slab : Bool
  pub mems : List (ℕ × ℕ)
  pub sched_load_balance : Bool
  pub sched_relax_domain_level : ℕ

module _ (h : Host) where
  open h use {State}

  -- `1` or `0`.
  abbrev write_flag : Place → Text → Bool → Io State Error (Unit {0})
  write_flag c file b = write_value h c file (if b then codes "1" else codes "0")

  unfoldable pub apply : Place → CpuResources → Io State Error (Unit {0})
  unfolding set_cpus set_mems
  apply c res = update (set_cpus h c) res.cpus >> update (set_mems h c) res.mems >> pure tt

  unfoldable pub set_cpu_exclusive : Place → Bool → Io State Error (Unit {0})
  unfolding write_value
  set_cpu_exclusive c b = write_flag c (codes "cpuset.cpu_exclusive") b

  unfoldable pub set_mem_exclusive : Place → Bool → Io State Error (Unit {0})
  unfolding write_value
  set_mem_exclusive c b = write_flag c (codes "cpuset.mem_exclusive") b

  unfoldable pub set_hardwall : Place → Bool → Io State Error (Unit {0})
  unfolding write_value
  set_hardwall c b = write_flag c (codes "cpuset.mem_hardwall") b

  unfoldable pub set_load_balancing : Place → Bool → Io State Error (Unit {0})
  unfolding write_value
  set_load_balancing c b = write_flag c (codes "cpuset.sched_load_balance") b

  unfoldable pub set_memory_migration : Place → Bool → Io State Error (Unit {0})
  unfolding write_value
  set_memory_migration c b = write_flag c (codes "cpuset.memory_migrate") b

  unfoldable pub set_memory_spread_page : Place → Bool → Io State Error (Unit {0})
  unfolding write_value
  set_memory_spread_page c b = write_flag c (codes "cpuset.memory_spread_page") b

  unfoldable pub set_memory_spread_slab : Place → Bool → Io State Error (Unit {0})
  unfolding write_value
  set_memory_spread_slab c b = write_flag c (codes "cpuset.memory_spread_slab") b

  unfoldable pub set_rebalance_relax_domain_level : Place → ℤ → Io State Error (Unit {0})
  unfolding write_value print_int
  set_rebalance_relax_domain_level c i =
      write_value h c (codes "cpuset.sched_relax_domain_level") (print_int i)

  -- The test for the file is on its bare name, which is a path below the working directory.
  unfoldable pub set_enable_memory_pressure :
      Directories h → Place → Bool → Io State Error (Unit {0})
  unfolding write_value
  set_enable_memory_pressure d c b s =
      (if not (d.exists (codes "cpuset.memory_pressure_enabled") s)
          then raise (new invalid_operation)
          else write_flag c (codes "cpuset.memory_pressure_enabled") b)
        s

  -- Whether a file holds one.
  unfoldable pub is_one : Place → Text → Io State Error Bool
  unfolding read_from
  is_one c file = do x ← read_u64_from h c file; pure (x == 1)

  abbrev flag : Place → Text → Io State Error Bool
  flag c file = default_to false (is_one c file)

  unfoldable pub ranges : Place → Text → Io State Error (List (ℕ × ℕ))
  unfolding read_string_from parse_range
  ranges c file = default_to [] (read_string_from h c file >>= λ s. lift (parse_range s))

  unfoldable pub cpuset : Place → Io State Error CpuSet
  unfolding is_one ranges read_from
  cpuset c = do
    cpu_exclusive ← flag c (codes "cpuset.cpu_exclusive")
    cpus ← ranges c (codes "cpuset.cpus")
    effective_cpus ← ranges c (codes "cpuset.effective_cpus")
    effective_mems ← ranges c (codes "cpuset.effective_mems")
    mem_exclusive ← flag c (codes "cpuset.mem_exclusive")
    mem_hardwall ← flag c (codes "cpuset.mem_hardwall")
    memory_migrate ← flag c (codes "cpuset.memory_migrate")
    memory_pressure ← default_to 0 (read_u64_from h c (codes "cpuset.memory_pressure"))
    memory_pressure_enabled ←
        or_else (is_one c (codes "cpuset.memory_pressure_enabled") >>= λ b. pure (some b))
          (λ e. pure none)
    memory_spread_page ← flag c (codes "cpuset.memory_spread_page")
    memory_spread_slab ← flag c (codes "cpuset.memory_spread_slab")
    mems ← ranges c (codes "cpuset.mems")
    sched_load_balance ← flag c (codes "cpuset.sched_load_balance")
    sched_relax_domain_level ←
        default_to 0 (read_u64_from h c (codes "cpuset.sched_relax_domain_level"))
    pure (record {
      cpu_exclusive = cpu_exclusive;
      cpus = cpus;
      effective_cpus = effective_cpus;
      effective_mems = effective_mems;
      mem_exclusive = mem_exclusive;
      mem_hardwall = mem_hardwall;
      memory_migrate = memory_migrate;
      memory_pressure = memory_pressure;
      memory_pressure_enabled = memory_pressure_enabled;
      memory_spread_page = memory_spread_page;
      memory_spread_slab = memory_spread_slab;
      mems = mems;
      sched_load_balance = sched_load_balance;
      sched_relax_domain_level = sched_relax_domain_level;
    })
