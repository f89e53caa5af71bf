-- ===== src/Fs/NetPrio.antt =====
-- fs/net_prio.rs: the priorities of a group's packets by network interface.
use cgroups_rs.Base.{ℕ, List, [], ◌∷◌, ◌++◌, Option, none, some}
use cgroups_rs.Text.{Text, codes, trim}
use cgroups_rs.Text.Split.{split_whitespace}
use cgroups_rs.Text.Lines.{lines}
use cgroups_rs.Number.{parse_u64, parse_uint}
use cgroups_rs.Number.Print.{print}
use cgroups_rs.Dict.{Dict, insert}
use cgroups_rs.Io.{Io, ◌>>=◌, ◌>>◌, pure, map_err, default_to, for_each, lift}
use cgroups_rs.Base.{ok, err}
use cgroups_rs.Fs.Error.{Error, FsResult, new, with_cause, parse_error, parse_int_error}
use cgroups_rs.Fs.Host.{Host, Place, push, open_for_read, write_value}
use cgroups_rs.Fs.Read.{read_from, read_u64_from}

pub record NetworkPriority : Type 0 where
  pub name : Text
  pub priority : ℕ

pub record NetworkResources : Type 0 where
  pub class_id : Option ℕ
  pub priorities : List NetworkPriority

abbrev with_priority : Text → Option ℕ → FsResult (Text × ℕ)
with_priority ifname none = err (with_cause parse_error parse_int_error)
with_priority ifname (some ifprio) = ok (ifname, ifprio)

-- The first two words of a line.
unfoldable pub priority_of_words : List Text → FsResult (Text × ℕ)
unfolding trim parse_uint
priority_of_words (ifname ∷ ifprio ∷ rest) = with_priority ifname (parse_u64 (trim ifprio))
priority_of_words _ = err (new parse_error)

abbrev with_entry : FsResult (Text × ℕ) → (Dict ℕ → FsResult (Dict ℕ)) → Dict ℕ → FsResult (Dict ℕ)
with_entry (err e) rest m = err e
with_entry (ok (ifname, ifprio)) rest m = rest (insert ifname ifprio m)

unfoldable pub priorities_of_lines : List Text → Dict ℕ → FsResult (Dict ℕ)
unfolding split_whitespace priority_of_words insert
priorities_of_lines [] m = ok m
priorities_of_lines (l ∷ ls) m =
    with_entry (priority_of_words (split_whitespace l)) (priorities_of_lines ls) m

module _ (h : Host) where
  open h use {State, read_to_string}

  unfoldable pub prio_idx : Place → Io State Error ℕ
  unfolding read_from
  prio_idx c = default_to 0 (read_u64_from h c (codes "net_prio.prioidx"))

  -- A file that cannot be read as text is a parse error.
  unfoldable pub ifpriomap : Place → Io State Error (Dict ℕ)
  unfolding open_for_read lines priorities_of_lines
  ifpriomap c = do
    content ←
        open_for_read h c (codes "net_prio.ifpriomap")
        >> map_err (λ e. new parse_error)
            (read_to_string (push c.path (codes "net_prio.ifpriomap")))
    lift (priorities_of_lines (lines content) [])

  unfoldable pub set_if_prio : Place → Text → ℕ → Io State Error (Unit {0})
  unfolding write_value print
  set_if_prio c eif prio = write_value h c (codes "net_prio.ifpriomap") (eif ++ b' ' ∷ print prio)

  unfoldable pub apply : Place → NetworkResources → Io State Error (Unit {0})
  unfolding set_if_prio for_each
  apply c res = for_each (λ i. set_if_prio c i.name i.priority) res.priorities >> pure tt
