-- ===== src/Fs/Blkio.antt =====
-- fs/blkio.rs: the texts that the block I/O controller's files hold.
pub mod IoStat
pub mod Services
pub mod ServiceText
pub mod Statistics
pub mod Settings
pub mod Writes
mod Tests
use cgroups_rs.Base.{
  ℕ, ℤ, pos, Bool, true, false, not, ◌&&◌, ◌||◌, List, [], ◌∷◌, ◌++◌, Result, ok, err, ◌>>=◌, ok_or,
  Option, none, some, Outcome, returns, panics, unwrap, then_returns, get_elem?, length, ◌==◌, eq_ℤ,
  map, if◌then◌else◌,
}
use cgroups_rs.Text.{Text, codes, text_eq}
use cgroups_rs.Text.Split.{split, split_by, split_whitespace}
use cgroups_rs.Text.Lines.{lines}
use cgroups_rs.Number.{parse_u64, parse_uint}
use cgroups_rs.Number.Signed.{parse_i16, parse_int}
use cgroups_rs.Fs.Error.{Error, FsResult, new, parse_error}

-- `amount` is the field `data`.
pub record BlkIoData : Type 0 where
  pub major : ℤ
  pub minor : ℤ
  pub amount : ℕ

-- `asynchronous` is the field `async`.
pub record IoService : Type 0 where
  pub major : ℤ
  pub minor : ℤ
  pub read : ℕ
  pub write : ℕ
  pub sync : ℕ
  pub asynchronous : ℕ
  pub discard : ℕ
  pub total : ℕ

abbrev pub default_io_service : IoService
default_io_service = record {
  major = pos 0;
  minor = pos 0;
  read = 0;
  write = 0;
  sync = 0;
  asynchronous = 0;
  discard = 0;
  total = 0;
}

pub record IoStatLine : Type 0 where
  pub major : ℤ
  pub minor : ℤ
  pub rbytes : ℕ
  pub wbytes : ℕ
  pub rios : ℕ
  pub wios : ℕ
  pub dbytes : ℕ
  pub dios : ℕ

-- A line of three words: the two numbers of the device, where they can be read, the operation and
-- the value.
abbrev pub Row : Type 0
Row = Option ℤ × Option ℤ × Text × Text

-- The device of the first word must have a colon.
abbrev row_of : List Text → Text → Text → Outcome Row
row_of (major ∷ minor ∷ rest) b c = returns (parse_i16 major, parse_i16 minor, b, c)
row_of _ b c = panics

abbrev with_row : List Text → Outcome (List Row) → Outcome (List Row)
with_row (a ∷ b ∷ c ∷ []) rest =
    then_returns (row_of (split b':' a) b c) λ r. then_returns rest λ rs. returns (r ∷ rs)
with_row _ rest = rest

unfoldable pub rows_of : List Text → Outcome (List Row)
unfolding split_whitespace split_by parse_int
rows_of [] = returns []
rows_of (l ∷ ls) = with_row (split_whitespace l) (rows_of ls)

-- The value under its operation's name; other names are passed over.
unfoldable pub set_op : Text → ℕ → IoService → IoService
unfolding text_eq
set_op op val io =
    if text_eq op (codes "Read")
    then record io { read = val }
    else if text_eq op (codes "Write")
    then record io { write = val }
    else if text_eq op (codes "Sync")
    then record io { sync = val }
    else if text_eq op (codes "Async")
    then record io { asynchronous = val }
    else if text_eq op (codes "Discard")
    then record io { discard = val }
    else if text_eq op (codes "Total")
    then record io { total = val }
    else io

abbrev is_new_device : ℤ → ℤ → IoService → Bool
is_new_device major minor io =
    (not (eq_ℤ major io.major) || not (eq_ℤ minor io.minor)) && not (eq_ℤ io.major (pos 0))

abbrev pushed_when : Bool → IoService → List IoService → List IoService
pushed_when b io done = if b then done ++ io ∷ [] else done

-- The loop, with the finished devices and the one that is being read.
unfoldable pub services_of : List Row → List IoService → IoService → FsResult (List IoService)
unfolding set_op parse_uint
services_of [] done io = ok (pushed_when (not (eq_ℤ io.major (pos 0))) io done)
services_of ((major_num, minor_num, op, val) ∷ rows) done io = do
  major ← ok_or major_num (new parse_error)
  minor ← ok_or minor_num (new parse_error)
  let fresh = is_new_device major minor io
  let next = if fresh then default_io_service else io
  n ← ok_or (parse_u64 val) (new parse_error)
  services_of rows (pushed_when fresh io done)
      (set_op op n (record next { major = major; minor = minor }))

unfoldable pub parse_io_service : Text → Outcome (FsResult (List IoService))
unfolding lines rows_of services_of
parse_io_service s =
    then_returns (rows_of (lines s)) λ rows. returns (services_of rows [] default_io_service)

abbrev second_or_zero : List Text → Text
second_or_zero (a ∷ b ∷ []) = b
second_or_zero _ = codes "0"

unfoldable pub get_value : Text → Text
unfolding split_by
get_value s = second_or_zero (split b':' s)

abbrev number_of : Text → Outcome ℕ
number_of item = unwrap (parse_u64 (get_value item))

-- One line of seven words.
unfoldable pub io_stat_of : List Text → Text → Text → Text → Text → Text → Text → Outcome IoStatLine
unfolding get_value parse_uint parse_int
io_stat_of device v1 v2 v3 v4 v5 v6 = then_returns (unwrap (get_elem? device 0)) λ major_text.
    then_returns (unwrap (get_elem? device 1)) λ minor_text.
      then_returns (unwrap (parse_i16 major_text)) λ major.
        then_returns (unwrap (parse_i16 minor_text)) λ minor. then_returns (number_of v1) λ rbytes.
          then_returns (number_of v2) λ wbytes. then_returns (number_of v3) λ rios.
            then_returns (number_of v4) λ wios. then_returns (number_of v5) λ dbytes.
              then_returns (number_of v6) λ dios. returns (record {
                major = major;
                minor = minor;
                rbytes = rbytes;
                wbytes = wbytes;
                rios = rios;
                wios = wios;
                dbytes = dbytes;
                dios = dios;
              })

abbrev with_stat : List Text → Outcome (List IoStatLine) → Outcome (List IoStatLine)
with_stat (d ∷ v1 ∷ v2 ∷ v3 ∷ v4 ∷ v5 ∷ v6 ∷ []) rest =
    then_returns (io_stat_of (split b':' d) v1 v2 v3 v4 v5 v6)
      λ r. then_returns rest λ rs. returns (r ∷ rs)
with_stat _ rest = rest

unfoldable pub io_stats_of : List Text → Outcome (List IoStatLine)
unfolding split_whitespace split_by io_stat_of
io_stats_of [] = returns []
io_stats_of (l ∷ ls) = with_stat (split_whitespace l) (io_stats_of ls)

unfoldable pub parse_io_stat : Text → Outcome (List IoStatLine)
unfolding lines io_stats_of
parse_io_stat s = io_stats_of (lines s)

abbrev total_of : List Text → Option ℕ
total_of (t ∷ val ∷ []) = if text_eq t (codes "Total") then parse_u64 val else none
total_of _ = none

abbrev or_rest : Option ℕ → FsResult ℕ → FsResult ℕ
or_rest none rest = rest
or_rest (some n) rest = ok n

-- The first line that is `Total` and a number.
unfoldable pub find_total : List Text → FsResult ℕ
unfolding split_whitespace text_eq parse_uint
find_total [] = err (new parse_error)
find_total (l ∷ ls) = or_rest (total_of (split_whitespace l)) (find_total ls)

unfoldable pub parse_io_service_total : Text → FsResult ℕ
unfolding lines find_total
parse_io_service_total s = find_total (lines s)

abbrev colon_to_space : ℕ → ℕ
colon_to_space c = if c == b':' then b' ' else c

words_of : List Text → List Text
unfolding split_whitespace
words_of [] = []
words_of (l ∷ ls) = split_whitespace l ++ words_of ls

-- The chunks of three; a last one that is shorter is an error. A word that is no number panics.
unfoldable pub data_of_words : List Text → Outcome (FsResult (List BlkIoData))
unfolding parse_int parse_uint
data_of_words [] = returns (ok [])
data_of_words (major ∷ minor ∷ amount ∷ rest) = then_returns (unwrap (parse_i16 major)) λ a.
    then_returns (unwrap (parse_i16 minor)) λ b. then_returns (unwrap (parse_u64 amount)) λ n.
      then_returns (data_of_words rest)
        λ others. returns (do ds ← others; ok (record { major = a; minor = b; amount = n } ∷ ds))
data_of_words _ = returns (err (new parse_error))

unfoldable pub parse_blkio_data : Text → Outcome (FsResult (List BlkIoData))
unfolding lines words_of data_of_words
parse_blkio_data s = data_of_words (words_of (lines (map colon_to_space s)))
