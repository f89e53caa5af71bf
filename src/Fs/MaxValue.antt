-- ===== src/Fs/MaxValue.antt =====
-- fs/mod.rs: `MaxValue`, the limit of a file that may hold `max`.
pub mod RoundTrip
use cgroups_rs.Base.{ok, err, Option, none, some, ℤ, minus_one, if◌then◌else◌}
use cgroups_rs.Text.{Text, codes, trim, text_eq}
use cgroups_rs.Number.Signed.{parse_i64, print_int}
use cgroups_rs.Fs.Error.{FsResult, with_cause, parse_error, parse_int_error}

pub data MaxValue : Type 0 where
  max : MaxValue
  value : ℤ → MaxValue

-- `MaxValue::to_i64`
abbrev pub to_i64 : MaxValue → ℤ
to_i64 max = minus_one
to_i64 (value z) = z

-- `Display`
unfoldable pub print_max_value : MaxValue → Text
unfolding print_int
print_max_value max = codes "max"
print_max_value (value z) = print_int z

abbrev value_of : Option ℤ → FsResult MaxValue
value_of none = err (with_cause parse_error parse_int_error)
value_of (some z) = ok (value z)

unfoldable pub parse_max_value : Text → FsResult MaxValue
unfolding trim text_eq
parse_max_value s = if text_eq (trim s) (codes "max") then ok max else value_of (parse_i64 (trim s))
