-- ===== src/Fs/Cpu.antt =====
-- fs/cpu.rs: the weight of a control group and its bandwidth, which is two files in version 1 and
-- one file in version 2.
pub mod Bandwidth
mod Tests
use cgroups_rs.Base.{
  ℕ, ℤ, pos, Bool, true, false, not, List, [], ◌∷◌, ◌++◌, ok, err, ◌==◌, Option, none, some, ltb_ℤ,
  eq_ℤ, if◌then◌else◌,
}
use cgroups_rs.Text.{Text, codes, trim}
use cgroups_rs.Text.Split.{split, split_by}
use cgroups_rs.Number.{parse_u64, parse_uint}
use cgroups_rs.Number.Print.{print}
use cgroups_rs.Number.Signed.{print_int}
use cgroups_rs.Io.{Io, ◌>>=◌, ◌>>◌, pure, raise, lift, default_to, when_some, for_each}
use cgroups_rs.Dict.{Dict}
use cgroups_rs.Fs.Error.{Error, from_string, new, other}
use cgroups_rs.Fs.Update.{update_and_test}
use cgroups_rs.Fs.Host.{Host, Place, read_text, write_value, set}
use cgroups_rs.Fs.MaxValue.{MaxValue, max, value, to_i64, print_max_value, parse_max_value}
use cgroups_rs.Fs.Read.{parsed, read_from, read_u64_from, read_i64_from}

pub record CfsQuotaAndPeriod : Type 0 where
  pub quota : MaxValue
  pub period : ℕ

pub record CpuResources : Type 0 where
  pub cpus : Option Text
  pub mems : Option Text
  pub shares : Option ℕ
  pub quota : Option ℤ
  pub period : Option ℕ
  pub realtime_runtime : Option ℤ
  pub realtime_period : Option ℕ
  pub attrs : Dict Text

pub record Cpu : Type 0 where
  pub stat : Text

unfoldable pub new_quota : Option ℤ → CfsQuotaAndPeriod → Text
unfolding print_max_value print_int
new_quota none current = print_max_value current.quota
new_quota (some q) current = if ltb_ℤ (pos 0) q then print_int q else codes "max"

unfoldable pub new_period : Option ℕ → CfsQuotaAndPeriod → Text
unfolding print
new_period none current = print current.period
new_period (some p) current = print p

-- `format!("{} {}", new_quota, new_period)`
abbrev pub cpu_max_line : Text → Text → Text
cpu_max_line quota period = quota ++ b' ' ∷ period

abbrev shares_file : Place → Text
shares_file c = if c.v2 then codes "cpu.weight" else codes "cpu.shares"

module _ (h : Host) where
  open h use {State}

  -- The two fields of `cpu.max`.
  unfoldable pub quota_and_period_of : Text → List Text → Io State Error CfsQuotaAndPeriod
  unfolding parse_max_value parse_uint
  quota_and_period_of content (first ∷ second ∷ []) = do
    quota ← lift (parse_max_value first)
    period ← parsed (parse_u64 second)
    pure (record { quota = quota; period = period })
  quota_and_period_of content _ = raise (from_string (codes "invaild format: " ++ content))

  -- `open_path("cpu.max", false).and_then(parse_cfs_quota_and_period)`
  unfoldable pub parse_cfs_quota_and_period : Place → Io State Error CfsQuotaAndPeriod
  unfolding read_text trim split_by quota_and_period_of
  parse_cfs_quota_and_period c = do
    content ← read_text h c (codes "cpu.max") (codes "cpu.max")
    quota_and_period_of content (split b' ' (trim content))

  unfoldable pub cpu : Place → Io State Error Cpu
  unfolding read_text
  cpu c = do
    s ← default_to [] (read_text h c (codes "cpu.stat") (codes "cpu.stat"))
    pure (record { stat = s })

  unfoldable pub set_shares : Place → ℕ → Io State Error (Unit {0})
  unfolding write_value print
  set_shares c shares = write_value h c (shares_file c) (print shares)

  unfoldable pub shares : Place → Io State Error ℕ
  unfolding read_from
  shares c = read_u64_from h c (shares_file c)

  -- The body of `set_cfs_quota_and_period` in version 2.
  unfoldable pub rewrite_cpu_max : Place → Option ℤ → Option ℕ → Io State Error (Unit {0})
  unfolding parse_cfs_quota_and_period new_quota new_period write_value
  rewrite_cpu_max c quota period = do
    current ← parse_cfs_quota_and_period c
    write_value h c (codes "cpu.max")
        (cpu_max_line (new_quota quota current) (new_period period current))

  unfoldable pub set_cfs_period : Place → ℕ → Io State Error (Unit {0})
  unfolding rewrite_cpu_max write_value print
  set_cfs_period c us =
      if c.v2
      then rewrite_cpu_max c none (some us)
      else write_value h c (codes "cpu.cfs_period_us") (print us)

  unfoldable pub cfs_period : Place → Io State Error ℕ
  unfolding parse_cfs_quota_and_period read_from
  cfs_period c =
      if c.v2
      then (do current ← parse_cfs_quota_and_period c; pure current.period)
      else read_u64_from h c (codes "cpu.cfs_period_us")

  unfoldable pub set_cfs_quota : Place → ℤ → Io State Error (Unit {0})
  unfolding rewrite_cpu_max write_value print_int
  set_cfs_quota c us =
      if c.v2
      then rewrite_cpu_max c (some us) none
      else write_value h c (codes "cpu.cfs_quota_us") (print_int us)

  unfoldable pub cfs_quota : Place → Io State Error ℤ
  unfolding parse_cfs_quota_and_period read_from
  cfs_quota c =
      if c.v2
      then (do current ← parse_cfs_quota_and_period c; pure (to_i64 current.quota))
      else read_i64_from h c (codes "cpu.cfs_quota_us")

  unfoldable pub set_cfs_quota_and_period : Place → Option ℤ → Option ℕ → Io State Error (Unit {0})
  unfolding rewrite_cpu_max set_cfs_quota set_cfs_period
  set_cfs_quota_and_period c quota period =
      if not c.v2
      then when_some quota (set_cfs_quota c) >> when_some period (set_cfs_period c)
      else rewrite_cpu_max c quota period

  unfoldable pub set_rt_runtime : Place → ℤ → Io State Error (Unit {0})
  unfolding write_value print_int
  set_rt_runtime c us = write_value h c (codes "cpu.rt_runtime_us") (print_int us)

  unfoldable pub set_rt_period_us : Place → ℕ → Io State Error (Unit {0})
  unfolding write_value print
  set_rt_period_us c us = write_value h c (codes "cpu.rt_period_us") (print us)

  -- `ControllerInternal::apply`
  unfoldable pub apply : Place → CpuResources → Io State Error (Unit {0})
  unfolding for_each set_shares shares set_cfs_period cfs_period set_cfs_quota cfs_quota set
  apply c res =
      update_and_test (λ a b. a == b) (set_shares c) res.shares (shares c)
      >> update_and_test (λ a b. a == b) (set_cfs_period c) res.period (cfs_period c)
      >> update_and_test eq_ℤ (set_cfs_quota c) res.quota (cfs_quota c)
      >> for_each (λ (k, v). set h c k v) res.attrs
