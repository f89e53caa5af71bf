-- ===== src/Fs/Devices/Permissions.antt =====
-- Access letters: which texts are permissions.
use cgroups_rs.Base.{
  sym, taken, ok_or-eq-ok, ℕ, Bool, not, ◌&&◌, is_empty, ◌≡◌, refl, List, [], ◌∷◌, map, true, false,
  ok, err, some, arith, ok_or,
}
use cgroups_rs.Text.{Text}
use cgroups_rs.Fs.Error.{FsResult, new, parse_error}
use cgroups_rs.Fs.Devices.{
  DevicePermissions, perm_to_char, perm_from_char, perms_from_str, is_valid, chars_valid,
}

abbrev pub is_ok : {A : Type 0} → FsResult A → Bool
is_ok (ok a) = true
is_ok (err e) = false

chars_valid-is_ok : (s : Text) → chars_valid s ≡ is_ok (perms_from_str s)
unfolding chars_valid perms_from_str
chars_valid-is_ok [] = refl
chars_valid-is_ok (c ∷ s) = ground (arith, chars_valid-is_ok s)

perm_to_char-perm_from_char :
    (c : ℕ) (perm : DevicePermissions) → perm_from_char c ≡ some perm → perm_to_char perm ≡ c
unfolding perm_from_char perm_to_char
perm_to_char-perm_from_char c perm h = ground arith

map-perms_from_str :
    (s : Text) (ps : List DevicePermissions) → perms_from_str s ≡ ok ps → map perm_to_char ps ≡ s
unfolding perms_from_str
map-perms_from_str [] ps h = ground arith
map-perms_from_str (c ∷ s) ps h =
    let (perm, h', e) = taken _ (ok_or (perm_from_char c) (new parse_error)) (sym h) in
    let (v, h'', e') = taken _ (perms_from_str s) (sym h') in
    cc (
      perm_to_char-perm_from_char c perm (ok_or-eq-ok (perm_from_char c) (new parse_error) e),
      map-perms_from_str s v e',
    )

-- `is_valid` accepts exactly the texts that are not empty and that `from_str` reads.
pub is_valid-perms_from_str :
    (s : Text) → is_valid s ≡ (not (is_empty s) && is_ok (perms_from_str s))
unfolding is_valid
is_valid-perms_from_str [] = refl
is_valid-perms_from_str (c ∷ s) = chars_valid-is_ok (c ∷ s)
