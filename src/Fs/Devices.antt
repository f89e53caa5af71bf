-- ===== src/Fs/Devices.antt =====
-- fs/devices.rs: device rules, the text that allows or denies a device, and the reading of
-- `devices.list`.
pub mod Permissions
pub mod Control
pub mod RoundTrip
mod Tests
use cgroups_rs.Base.{
  ℕ, Bool, true, false, ◌||◌, ◌&&◌, not, List, [], ◌∷◌, ◌++◌, map, Option, none, some, Result, ok,
  err, ◌>>=◌, ok_or, ◌==◌, if◌then◌else◌, length, ℤ, minus_one, eq_ℤ, is_empty,
}
use cgroups_rs.Text.{Text, codes, text_eq}
use cgroups_rs.Text.Split.{split_either}
use cgroups_rs.Text.Lines.{lines}
use cgroups_rs.Number.Signed.{parse_i64, parse_int, print_int}
use cgroups_rs.Fs.Error.{Error, FsResult, new, parse_error}

pub data DeviceType : Type 0 where
  all char block : DeviceType

pub data DevicePermissions : Type 0 where
  read write mk_nod : DevicePermissions

unfoldable pub type_to_char : DeviceType → ℕ
type_to_char all = b'a'
type_to_char char = b'c'
type_to_char block = b'b'

unfoldable pub type_from_char : Option ℕ → Option DeviceType
type_from_char none = none
type_from_char (some c) =
    if c == b'a'
    then some all
    else if c == b'c'
    then some char
    else if c == b'b'
    then some block
    else none

unfoldable pub perm_to_char : DevicePermissions → ℕ
perm_to_char read = b'r'
perm_to_char write = b'w'
perm_to_char mk_nod = b'm'

unfoldable pub perm_from_char : ℕ → Option DevicePermissions
perm_from_char c =
    if c == b'r'
    then some read
    else if c == b'w'
    then some write
    else if c == b'm'
    then some mk_nod
    else none

chars_valid : Text → Bool
chars_valid [] = true
chars_valid (c ∷ s) =
    if not (c == b'r') && not (c == b'w') && not (c == b'm') then false else chars_valid s

unfoldable pub is_valid : Text → Bool
unfolding chars_valid
is_valid s = if is_empty s then false else chars_valid s

-- `DevicePermissions::from_str`
unfoldable pub perms_from_str : Text → FsResult (List DevicePermissions)
unfolding perm_from_char
perms_from_str [] = ok []
perms_from_str (e ∷ s) = do
  perm ← ok_or (perm_from_char e) (new parse_error)
  v ← perms_from_str s
  ok (perm ∷ v)

-- `DeviceResource` of fs/mod.rs
pub record DeviceResource : Type 0 where
  pub allow : Bool
  pub devtype : DeviceType
  pub major : ℤ
  pub minor : ℤ
  pub access : List DevicePermissions

unfoldable pub number_text : ℤ → Text
unfolding print_int
number_text n = if eq_ℤ n minus_one then codes "*" else print_int n

-- The text that `allow_device` and `deny_device` write: `format!("{} {}:{} {}", ..)`.
unfoldable pub rule_text : DeviceType → ℤ → ℤ → List DevicePermissions → Text
unfolding type_to_char perm_to_char number_text
rule_text devtype major minor perm =
    type_to_char devtype
    ∷ b' '
    ∷ (number_text major ++ b':' ∷ (number_text minor ++ b' ' ∷ map perm_to_char perm))

unfoldable pub parse_device_number : Text → FsResult ℤ
unfolding text_eq parse_int
parse_device_number s =
    if text_eq s (codes "*") then ok minus_one else ok_or (parse_i64 s) (new parse_error)

abbrev first_char : Text → Option ℕ
first_char [] = none
first_char (c ∷ s) = some c

-- A line of `devices.list`, from its pieces.
device_of_parts : Bool → List Text → FsResult DeviceResource
unfolding type_from_char parse_device_number perms_from_str
device_of_parts allow (type_part ∷ major_part ∷ minor_part ∷ access_part ∷ []) = do
  devtype ← ok_or (type_from_char (first_char type_part)) (new parse_error)
  major ← parse_device_number major_part
  minor ← parse_device_number minor_part
  access ← perms_from_str access_part
  ok (record { allow = allow; devtype = devtype; major = major; minor = minor; access = access })
device_of_parts allow _ = err (new parse_error)

unfoldable pub parse_device_line : Text → Bool → FsResult DeviceResource
unfolding device_of_parts
parse_device_line line allow = device_of_parts allow (split_either b' ' b':' line)

-- `collect` into a result: the first error, or all the values.
collect_devices : List Text → FsResult (List DeviceResource)
unfolding parse_device_line
collect_devices [] = ok []
collect_devices (line ∷ rest) = do
  d ← parse_device_line line true
  ds ← collect_devices rest
  ok (d ∷ ds)

-- `allowed_devices`, from the content of `devices.list`.
unfoldable pub devices_of_content : Text → FsResult (List DeviceResource)
unfolding collect_devices lines
devices_of_content s = collect_devices (lines s)
