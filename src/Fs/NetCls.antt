-- ===== src/Fs/NetCls.antt =====
-- fs/net_cls.rs: the class of a group's packets.
pub mod Hex
mod Tests
use cgroups_rs.Base.{
  ℕ, zero, suc, ◌+◌, ◌-◌, ◌/◌, ◌%◌, List, [], ◌∷◌, ◌++◌, Option, if◌then◌else◌, ltb, length,
}
use cgroups_rs.Text.{Text, codes}
use cgroups_rs.Io.{Io, ◌>>=◌, ◌>>◌, pure, update}
use cgroups_rs.Fs.Error.{Error}
use cgroups_rs.Fs.Host.{Host, Place, write_value}
use cgroups_rs.Fs.Read.{read_from, read_u64_from}
use cgroups_rs.Fs.NetPrio.{NetworkResources}

abbrev pub hex_digit : ℕ → ℕ
hex_digit d = if ltb d 10 then b'0' + d else b'A' + (d - 10)

-- The digits of `n` in front of `out`. Each round divides by sixteen, so `n + 1` rounds are enough.
unfoldable pub emit_hex : ℕ → ℕ → Text → Text
emit_hex zero n out = out
emit_hex (suc rounds) n out =
    let rest = emit_hex rounds (n / 16) (hex_digit (n % 16) ∷ out) in
    if ltb n 16 then hex_digit n ∷ out else rest

unfoldable pub zeros : ℕ → Text
zeros zero = []
zeros (suc n) = b'0' ∷ zeros n

-- `format!("{:#08X}", n)`: eight characters at least, the prefix among them.
unfoldable pub hex_text : ℕ → Text
unfolding emit_hex zeros
hex_text n =
    let digits = emit_hex (n + 1) n [] in codes "0x" ++ (zeros (6 - length digits) ++ digits)

module _ (h : Host) where
  open h use {State}

  unfoldable pub set_class : Place → ℕ → Io State Error (Unit {0})
  unfolding write_value hex_text
  set_class c class = write_value h c (codes "net_cls.classid") (hex_text class)

  unfoldable pub get_class : Place → Io State Error ℕ
  unfolding read_from
  get_class c = read_u64_from h c (codes "net_cls.classid")

  unfoldable pub apply : Place → NetworkResources → Io State Error (Unit {0})
  unfolding set_class
  apply c res = update (set_class c) res.class_id >> pure tt
