-- ===== src/Fs/Cpuset.antt =====
-- fs/cpuset.rs: the list format of `cpuset.cpus` and `cpuset.mems`.
pub mod Ranges
pub mod Parent
pub mod Settings
mod Tests
use cgroups_rs.Base.{
  ℕ, ◌≤◌, Bool, true, false, ◌||◌, ◌&&◌, List, [], ◌∷◌, Result, ok, err, ◌>>=◌, ok_or, leb,
  is_empty, if◌then◌else◌, Option, none, some,
}
use cgroups_rs.Text.{Text, codes, contains_char}
use cgroups_rs.Text.Split.{split, split_by}
use cgroups_rs.Number.{parse_u64, parse_uint}
use cgroups_rs.Io.{Io}
use cgroups_rs.Fs.Host.{Host, Place, write_value}
use cgroups_rs.Fs.Error.{Error, FsResult, new, parse_error}

-- The two pieces of a true range.
unfoldable pub range_of_pieces : List Text → FsResult (ℕ × ℕ)
unfolding parse_uint
range_of_pieces (a ∷ b ∷ []) = do
  first ← ok_or (parse_u64 a) (new parse_error)
  second ← ok_or (parse_u64 b) (new parse_error)
  ok (first, second)
range_of_pieces _ = err (new parse_error)

-- One round of the loop: a true range if there is a dash, else a single number.
unfoldable pub range_of : Text → FsResult (ℕ × ℕ)
unfolding range_of_pieces contains_char split_by
range_of sp =
    if contains_char b'-' sp
    then range_of_pieces (split b'-' sp)
    else (do num ← ok_or (parse_u64 sp) (new parse_error); ok (num, num))

unfoldable pub ranges_of : List Text → FsResult (List (ℕ × ℕ))
unfolding range_of
ranges_of [] = ok []
ranges_of (sp ∷ rest) = do r ← range_of sp; rs ← ranges_of rest; ok (r ∷ rs)

unfoldable pub parse_range : Text → FsResult (List (ℕ × ℕ))
unfolding ranges_of
parse_range s = if is_empty s then ok [] else ranges_of (split b',' s)

-- The number is in one of the ranges, whose ends are inclusive.
unfoldable pub covers : List (ℕ × ℕ) → ℕ → Bool
covers [] i = false
covers ((a, b) ∷ rs) i = (leb a i && leb i b) || covers rs i

module _ (h : Host) where
  open h use {State}

  unfoldable pub set_cpus : Place → Text → Io State Error (Unit {0})
  unfolding write_value
  set_cpus c cpus = write_value h c (codes "cpuset.cpus") cpus

  unfoldable pub set_mems : Place → Text → Io State Error (Unit {0})
  unfolding write_value
  set_mems c mems = write_value h c (codes "cpuset.mems") mems
