-- ===== src/Fs/Devices/RoundTrip.antt =====
-- A rule that was written is read back.
use cgroups_rs.Base.{
  sym, All-append, ap, ℕ, ◌≡◌, refl, Bool, true, ◌||◌, List, [], ◌∷◌, ◌+◌, map, false, ◌≢◌,
  Bool-cases, inl, inr, minus_one, eq_ℤ, eq_of_parts, some, ok, arith, ◌==◌, All, ℤ, pos, negsuc,
  IsI64,
}
use cgroups_rs.Text.{Text, codes, text_eq}
use cgroups_rs.Text.Lines.{unlines, is_break, lines-unlines}
use cgroups_rs.Text.Split.{split_either, split_by-Free, split_by-append, Free}
use cgroups_rs.Number.{IsDigit}
use cgroups_rs.Number.Print.{print, print-IsDigit}
use cgroups_rs.Number.Signed.{print_int, parse_i64-print_int}
use cgroups_rs.Fs.Devices.{
  DeviceType, DevicePermissions, all, char, block, read, write, mk_nod, type_to_char, perm_to_char,
  type_from_char, perms_from_str, number_text, rule_text, collect_devices, devices_of_content,
  parse_device_number, parse_device_line, DeviceResource,
}

abbrev is_separator : ℕ → Bool
is_separator c = c == b' ' || c == b':'

digit-Free : (c : ℕ) → IsDigit c → is_separator c ≡ false
digit-Free c h = ground arith

digits-Free : (s : Text) → All IsDigit s → Free is_separator s
digits-Free [] _ = tt
digits-Free (c ∷ s) (h, hs) = (digit-Free c h, digits-Free s hs)

print-Free : (n : ℕ) → Free is_separator (print n)
print-Free n = let (c, s, e, d, ds) = print-IsDigit n in rw e (digit-Free c d, digits-Free s ds)

print_int-Free : (z : ℤ) → Free is_separator (print_int z)
unfolding print_int
print_int-Free (pos n) = print-Free n
print_int-Free (negsuc n) = (refl, print-Free (n + 1))

perms-Free : (ps : List DevicePermissions) → Free is_separator (map perm_to_char ps)
unfolding perm_to_char
perms-Free [] = tt
perms-Free (read ∷ ps) = (refl, perms-Free ps)
perms-Free (write ∷ ps) = (refl, perms-Free ps)
perms-Free (mk_nod ∷ ps) = (refl, perms-Free ps)

pub perms_from_str-perm_to_char :
    (ps : List DevicePermissions) → perms_from_str (map perm_to_char ps) ≡ ok ps
unfolding perms_from_str perm_to_char
perms_from_str-perm_to_char [] = refl
perms_from_str-perm_to_char (read ∷ ps) = rw (perms_from_str-perm_to_char ps)
perms_from_str-perm_to_char (write ∷ ps) = rw (perms_from_str-perm_to_char ps)
perms_from_str-perm_to_char (mk_nod ∷ ps) = rw (perms_from_str-perm_to_char ps)

type_from_char-type_to_char : (t : DeviceType) → type_from_char (some (type_to_char t)) ≡ some t
unfolding type_from_char type_to_char
type_from_char-type_to_char all = refl
type_from_char-type_to_char char = refl
type_from_char-type_to_char block = refl

type_char-Free : (t : DeviceType) → Free is_separator (type_to_char t ∷ [])
unfolding type_to_char
type_char-Free all = (refl, tt)
type_char-Free char = (refl, tt)
type_char-Free block = (refl, tt)

number_text-Free : (z : ℤ) → Free is_separator (number_text z)
unfolding number_text
number_text-Free z = elim (Bool-cases (eq_ℤ z minus_one)) [
  | inl e ↦ rw e (refl, tt)
  | inr e ↦ rw e (print_int-Free z)
]

-- No printed number is the wildcard.
star_ne : (c : ℕ) (s : Text) → c ≢ b'*' → text_eq (c ∷ s) (codes "*") ≡ false
unfolding text_eq
star_ne c s h = ground arith

print_int-ne-star : (z : ℤ) → text_eq (print_int z) (codes "*") ≡ false
unfolding print_int
print_int-ne-star (pos n) =
    let (c, s, e, d, _) = print-IsDigit n in rw e (star_ne c s (omega arith))
print_int-ne-star (negsuc n) = star_ne b'-' (print (n + 1)) (omega arith)

pub parse_device_number-number_text : (z : ℤ) → IsI64 z → parse_device_number (number_text z) ≡ ok z
unfolding parse_device_number number_text text_eq
parse_device_number-number_text z h = elim (Bool-cases (eq_ℤ z minus_one)) [
  | inl e ↦ rw e (ap ok (eq_of_parts minus_one z (ground arith)))
  | inr e ↦ rw e (rw (print_int-ne-star z) (rw (parse_i64-print_int z h) refl))
]

split_rule :
    (t : DeviceType) (major minor : ℤ) (ps : List DevicePermissions)
    → split_either b' ' b':' (rule_text t major minor ps)
      ≡ (type_to_char t ∷ []) ∷ number_text major ∷ number_text minor ∷ map perm_to_char ps ∷ []
unfolding rule_text
split_rule t major minor ps =
    rw (split_by-append is_separator (type_to_char t ∷ []) b' ' _ (type_char-Free t) refl) (
      rw (split_by-append is_separator (number_text major) b':' _ (number_text-Free major) refl) (
        rw (split_by-append is_separator (number_text minor) b' ' _ (number_text-Free minor) refl)
          (rw (split_by-Free is_separator (map perm_to_char ps) (perms-Free ps)) refl)))

-- The text that `allow_device` and `deny_device` write for a rule with `i64` numbers is read by
-- `parse_device_line` as that rule: the wildcard as -1, the type and the access letters in order.
pub parse_device_line-rule_text :
    (t : DeviceType) (major minor : ℤ) (ps : List DevicePermissions) (allow : Bool)
    → IsI64 major
    → IsI64 minor
    → parse_device_line (rule_text t major minor ps) allow
      ≡ ok (record { allow = allow; devtype = t; major = major; minor = minor; access = ps })
unfolding parse_device_line
parse_device_line-rule_text t major minor ps allow hmaj hmin = rw (split_rule t major minor ps) (
    rw
      (
        type_from_char-type_to_char t,
        parse_device_number-number_text major hmaj,
        parse_device_number-number_text minor hmin,
        perms_from_str-perm_to_char ps,
      )
      refl)

-- The rule of a device, as one line.
abbrev pub line_of : DeviceResource → Text
line_of d = rule_text d.devtype d.major d.minor d.access

abbrev pub InRange : DeviceResource → Type 0
InRange d = (d.allow ≡ true) × IsI64 d.major × IsI64 d.minor

digits-is_break : (s : Text) → All IsDigit s → Free is_break s
digits-is_break [] _ = tt
digits-is_break (c ∷ s) (h, hs) = (ground arith, digits-is_break s hs)

print-is_break : (n : ℕ) → Free is_break (print n)
print-is_break n = let (c, s, e, d, ds) = print-IsDigit n in rw e (digits-is_break (c ∷ s) (d, ds))

number_text-is_break : (z : ℤ) → Free is_break (number_text z)
unfolding number_text print_int
number_text-is_break (pos n) = elim (Bool-cases (eq_ℤ (pos n) minus_one)) [
  | inl e ↦ rw e (refl, tt)
  | inr e ↦ rw e (print-is_break n)
]
number_text-is_break (negsuc n) = elim (Bool-cases (eq_ℤ (negsuc n) minus_one)) [
  | inl e ↦ rw e (refl, tt)
  | inr e ↦ rw e (refl, print-is_break (n + 1))
]

perms-is_break : (ps : List DevicePermissions) → Free is_break (map perm_to_char ps)
unfolding perm_to_char
perms-is_break [] = tt
perms-is_break (read ∷ ps) = (refl, perms-is_break ps)
perms-is_break (write ∷ ps) = (refl, perms-is_break ps)
perms-is_break (mk_nod ∷ ps) = (refl, perms-is_break ps)

type_char-is_break : (t : DeviceType) → is_break (type_to_char t) ≡ false
unfolding type_to_char
type_char-is_break all = refl
type_char-is_break char = refl
type_char-is_break block = refl

line_of-is_break : (d : DeviceResource) → Free is_break (line_of d)
unfolding rule_text
line_of-is_break d = (
  type_char-is_break d.devtype,
  (
    refl,
    All-append _ (number_text d.major) _ (number_text-is_break d.major) (
      refl,
      All-append _ (number_text d.minor) _ (number_text-is_break d.minor)
          (refl, perms-is_break d.access),
    ),
  ),
)

lines_of-is_break : (ds : List DeviceResource) → All (Free is_break) (map line_of ds)
lines_of-is_break [] = tt
lines_of-is_break (d ∷ ds) = (line_of-is_break d, lines_of-is_break ds)

collect_devices-line_of :
    (ds : List DeviceResource) → All InRange ds → collect_devices (map line_of ds) ≡ ok ds
unfolding collect_devices
collect_devices-line_of [] _ = refl
collect_devices-line_of (d ∷ ds) ((ha, hmaj, hmin), hds) =
    rw
      (
        parse_device_line-rule_text d.devtype d.major d.minor d.access true hmaj hmin,
        collect_devices-line_of ds hds,
      )
      (λ i. ok (record d { allow = sym ha i } ∷ ds))

-- `allowed_devices` reads a `devices.list` with one line for each rule, in the form that
-- `allow_device` writes, as the list of those rules in their order: every rule is allowed and its
-- numbers are in the range of `i64`.
pub devices_of_content-unlines :
    (ds : List DeviceResource)
    → All InRange ds
    → devices_of_content (unlines (map line_of ds)) ≡ ok ds
unfolding devices_of_content
devices_of_content-unlines ds h =
    rw (lines-unlines (map line_of ds) (lines_of-is_break ds)) (collect_devices-line_of ds h)
