-- ===== src/Fs/Rdma.antt =====
-- fs/rdma.rs: the limits of RDMA resources, as texts.
use cgroups_rs.Text.{Text, codes}
use cgroups_rs.Io.{Io}
use cgroups_rs.Fs.Error.{Error}
use cgroups_rs.Fs.Host.{Host, Place, write_value}
use cgroups_rs.Fs.Read.{read_string_from}

module _ (h : Host) where
  open h use {State}

  unfoldable pub current : Place → Io State Error Text
  unfolding read_string_from
  current c = read_string_from h c (codes "rdma.current")

  unfoldable pub max : Place → Io State Error Text
  unfolding read_string_from
  max c = read_string_from h c (codes "rdma.max")

  unfoldable pub set_max : Place → Text → Io State Error (Unit {0})
  unfolding write_value
  set_max c limits = write_value h c (codes "rdma.max") limits
