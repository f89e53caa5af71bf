-- ===== src/Fs/Cpuacct.antt =====
-- fs/cpuacct.rs: the CPU time of a group.
use cgroups_rs.Base.{ℕ, []}
use cgroups_rs.Text.{Text, codes}
use cgroups_rs.Io.{Io, ◌>>=◌, pure, default_to}
use cgroups_rs.Fs.Error.{Error}
use cgroups_rs.Fs.Host.{Host, Place, write_value}
use cgroups_rs.Fs.Read.{read_from, read_u64_from, read_string_from}

pub record CpuAcct : Type 0 where
  pub stat : Text
  pub usage : ℕ
  pub usage_all : Text
  pub usage_percpu : Text
  pub usage_percpu_sys : Text
  pub usage_percpu_user : Text
  pub usage_sys : ℕ
  pub usage_user : ℕ

module _ (h : Host) where
  open h use {State}

  unfoldable pub cpuacct : Place → Io State Error CpuAcct
  unfolding read_string_from read_from
  cpuacct c = do
    stat ← default_to [] (read_string_from h c (codes "cpuacct.stat"))
    usage ← default_to 0 (read_u64_from h c (codes "cpuacct.usage"))
    usage_all ← default_to [] (read_string_from h c (codes "cpuacct.usage_all"))
    usage_percpu ← default_to [] (read_string_from h c (codes "cpuacct.usage_percpu"))
    usage_percpu_sys ← default_to [] (read_string_from h c (codes "cpuacct.usage_percpu_sys"))
    usage_percpu_user ← default_to [] (read_string_from h c (codes "cpuacct.usage_percpu_user"))
    usage_sys ← default_to 0 (read_u64_from h c (codes "cpuacct.usage_sys"))
    usage_user ← default_to 0 (read_u64_from h c (codes "cpuacct.usage_user"))
    pure (record {
      stat = stat;
      usage = usage;
      usage_all = usage_all;
      usage_percpu = usage_percpu;
      usage_percpu_sys = usage_percpu_sys;
      usage_percpu_user = usage_percpu_user;
      usage_sys = usage_sys;
      usage_user = usage_user;
    })

  unfoldable pub reset : Place → Io State Error (Unit {0})
  unfolding write_value
  reset c = write_value h c (codes "cpuacct.usage") (codes "0")
