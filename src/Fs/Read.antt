-- ===== src/Fs/Read.antt =====
-- fs/mod.rs: a number or a text read from an open file. What an open file is read for comes in as
-- the path of the file.
use cgroups_rs.Base.{ℕ, Option, none, some, ℤ}
use cgroups_rs.Text.{Text, codes, trim}
use cgroups_rs.Number.{parse_u64}
use cgroups_rs.Number.Signed.{parse_i64}
use cgroups_rs.Io.{Io, ◌>>=◌, pure, raise}
use cgroups_rs.Fs.Error.{Error, with_cause, parse_error, parse_int_error}
use cgroups_rs.Fs.Host.{Host, Place, read_text}
use cgroups_rs.Fs.MaxValue.{MaxValue, parse_max_value}
use cgroups_rs.Io.{lift}

module _ {S A : Type 0} where
  abbrev pub parsed : Option A → Io S Error A
  parsed none = raise (with_cause parse_error parse_int_error)
  parsed (some a) = pure a

module _ (h : Host) where
  open h use {State}

  -- `open_path(p, false).and_then(read_from)`, for each way to parse.
  unfoldable pub read_from : {A : Type 0} → (Text → Option A) → Place → Text → Io State Error A
  unfolding read_text trim
  read_from parse c file = do
    s ← read_text h c file (codes "FIXME: can't get path in fn read_from")
    parsed (parse (trim s))

  -- `open_path(p, false).and_then(read_u64_from)`
  abbrev pub read_u64_from : Place → Text → Io State Error ℕ
  read_u64_from = read_from parse_u64

  -- `open_path(p, false).and_then(read_i64_from)`
  abbrev pub read_i64_from : Place → Text → Io State Error ℤ
  read_i64_from = read_from parse_i64

  -- `open_path(p, false).and_then(read_string_from)`
  unfoldable pub read_string_from : Place → Text → Io State Error Text
  unfolding read_text trim
  read_string_from c file = do
    s ← read_text h c file (codes "FIXME: can't get path in fn read_string_from")
    pure (trim s)

  -- `ControllerInternal::get_max_value`
  unfoldable pub get_max_value : Place → Text → Io State Error MaxValue
  unfolding read_text parse_max_value
  get_max_value c file = do s ← read_text h c file file; lift (parse_max_value s)
