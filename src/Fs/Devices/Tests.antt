-- ===== src/Fs/Devices/Tests.antt =====
-- The theorems on device rules at concrete rules.
use cgroups_rs.Base.{◌≡◌, refl, true, [], ◌∷◌, map, not, ◌&&◌, is_empty, ok, arith, pos, minus_one}
use cgroups_rs.Text.{codes}
use cgroups_rs.Text.Lines.{unlines}
use cgroups_rs.Fs.Devices.{
  DeviceResource, char, block, read, write, mk_nod, rule_text, parse_device_line,
  devices_of_content, is_valid, perms_from_str,
}
use cgroups_rs.Fs.Devices.Permissions.{is_ok, is_valid-perms_from_str}
use cgroups_rs.Fs.Devices.RoundTrip.{
  line_of, parse_device_line-rule_text, devices_of_content-unlines,
}

abbrev disk : DeviceResource
disk = record {
  allow = true;
  devtype = block;
  major = pos 8;
  minor = minus_one;
  access = read ∷ mk_nod ∷ [];
}

abbrev null_device : DeviceResource
null_device = record {
  allow = true;
  devtype = char;
  major = pos 1;
  minor = pos 3;
  access = read ∷ write ∷ [];
}

line_test : line_of disk ≡ codes "b 8:* rm"
unfolding rule_text
line_test = refl

parse_device_line-rule_text_example :
    parse_device_line (rule_text block (pos 8) minus_one (read ∷ mk_nod ∷ [])) true ≡ ok disk
parse_device_line-rule_text_example =
    parse_device_line-rule_text block (pos 8) minus_one (read ∷ mk_nod ∷ []) true (omega arith)
      (omega arith)

devices_of_content-unlines_example :
    devices_of_content (unlines (map line_of (disk ∷ null_device ∷ [])))
    ≡ ok (disk ∷ null_device ∷ [])
devices_of_content-unlines_example =
    devices_of_content-unlines (disk ∷ null_device ∷ [])
      ((refl, (omega arith), (omega arith)), ((refl, (omega arith), (omega arith)), tt))

is_valid-perms_from_str_example :
    is_valid (codes "rwx") ≡ (not (is_empty (codes "rwx")) && is_ok (perms_from_str (codes "rwx")))
is_valid-perms_from_str_example = is_valid-perms_from_str (codes "rwx")
