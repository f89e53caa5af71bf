-- ===== src/Fs/Memory/Bounds.antt =====
-- fs/memory.rs: the four bounds of version 2, set and read together.
use cgroups_rs.Base.{pos, [], ◌∷◌, ◌++◌, Option, some}
use cgroups_rs.Text.{Text, codes}
use cgroups_rs.Io.{Io, ◌>>=◌, ◌>>◌, pure, default_to, when_some, map_err}
use cgroups_rs.Fs.Error.{Error, with_cause, os_error, write_failed}
use cgroups_rs.Fs.Host.{Host, Place, push, open_for_write}
use cgroups_rs.Fs.MaxValue.{MaxValue, max, value, print_max_value}
use cgroups_rs.Fs.Read.{get_max_value}

-- `max_limit` is the field `max`.
pub record SetMemory : Type 0 where
  pub low : Option MaxValue
  pub high : Option MaxValue
  pub min : Option MaxValue
  pub max_limit : Option MaxValue

module _ (h : Host) where
  open h use {State, write_all}

  -- One round of the loop; the error holds the value in its debug format, between quotes.
  unfoldable pub set_one : Place → Text → MaxValue → Io State Error (Unit {0})
  unfolding open_for_write print_max_value
  set_one c file m =
      let v = print_max_value m in
      open_for_write h c file
      >> map_err (λ e. with_cause (write_failed file (b'"' ∷ v ++ b'"' ∷ [])) (os_error e))
          (write_all (push c.path file) v)

  -- The files in the source's order.
  unfoldable pub set_mem : Place → SetMemory → Io State Error (Unit {0})
  unfolding set_one
  set_mem c m =
      when_some m.high (set_one c (codes "memory.high"))
      >> when_some m.low (set_one c (codes "memory.low"))
      >> when_some m.max_limit (set_one c (codes "memory.max"))
      >> when_some m.min (set_one c (codes "memory.min"))

  abbrev some_or : Place → Text → MaxValue → Io State Error (Option MaxValue)
  some_or c file d = do v ← default_to d (get_max_value h c file); pure (some v)

  unfoldable pub get_mem : Place → Io State Error SetMemory
  unfolding get_max_value
  get_mem c = do
    high ← some_or c (codes "memory.high") max
    low ← some_or c (codes "memory.low") (value (pos 0))
    max_limit ← some_or c (codes "memory.max") max
    min ← some_or c (codes "memory.min") (value (pos 0))
    pure (record { low = low; high = high; min = min; max_limit = max_limit })
