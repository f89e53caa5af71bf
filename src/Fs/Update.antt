-- ===== src/Fs/Update.antt =====
-- The macro `update_and_test!` of fs/mod.rs.
use cgroups_rs.Base.{Bool, Option, if◌then◌else◌}
use cgroups_rs.Io.{Io, ◌>>=◌, ◌>>◌, pure, raise, when_some}
use cgroups_rs.Fs.Error.{Error, new, other}

-- `update_and_test!(self, set, o, get)`
abbrev pub update_and_test :
    {S A : Type 0}
    → (A → A → Bool)
    → (A → Io S Error (Unit {0}))
    → Option A
    → Io S Error A
    → Io S Error (Unit {0})
update_and_test eq set_func o get_func =
    when_some o
      λ v. set_func v >> (get_func >>= λ got. if eq got v then pure tt else raise (new other))
