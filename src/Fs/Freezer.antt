-- ===== src/Fs/Freezer.antt =====
-- fs/freezer.rs: the freezing of a control group, in two formats.
pub mod States
mod Tests
use cgroups_rs.Base.{ok, err, if◌then◌else◌}
use cgroups_rs.Text.{Text, codes, trim, text_eq}
use cgroups_rs.Io.{Io, ◌>>=◌, lift}
use cgroups_rs.Fs.Error.{Error, FsResult, new, parse_error}
use cgroups_rs.Fs.Host.{Host, Place, write_value, read_text}

pub data FreezerState : Type 0 where
  thawed freezing frozen : FreezerState

abbrev pub state_file : Place → Text
state_file c = if c.v2 then codes "cgroup.freeze" else codes "freezer.state"

-- The texts of both versions, the first that fits.
unfoldable pub state_of_text : Text → FsResult FreezerState
unfolding text_eq
state_of_text s =
    if text_eq s (codes "FROZEN")
    then ok frozen
    else if text_eq s (codes "THAWED")
    then ok thawed
    else if text_eq s (codes "1")
    then ok frozen
    else if text_eq s (codes "0")
    then ok thawed
    else if text_eq s (codes "FREEZING")
    then ok freezing
    else err (new parse_error)

module _ (h : Host) where
  open h use {State}

  unfoldable pub freeze : Place → Io State Error (Unit {0})
  unfolding write_value
  freeze c = write_value h c (state_file c) (if c.v2 then codes "1" else codes "FROZEN")

  unfoldable pub thaw : Place → Io State Error (Unit {0})
  unfolding write_value
  thaw c = write_value h c (state_file c) (if c.v2 then codes "0" else codes "THAWED")

  unfoldable pub state : Place → Io State Error FreezerState
  unfolding read_text trim state_of_text
  state c = do s ← read_text h c (state_file c) (state_file c); lift (state_of_text (trim s))
