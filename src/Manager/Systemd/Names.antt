-- ===== src/Manager/Systemd/Names.antt =====
-- manager/systemd.rs: the slice and the unit that a path names.
use cgroups_rs.Base.{
  ◌≡◌, refl, ap, sym, ◌∙◌, append_assoc, true, ◌||◌, ◌∷◌, ◌++◌, ok, inl, inr, Bool-cases,
  if◌then◌else◌, is_empty, arith,
}
use cgroups_rs.Text.{Text}
use cgroups_rs.Text.Split.{split_by-Free, Free}
use cgroups_rs.Text.{ends_with}
use cgroups_rs.Text.Affix.{ends_with-append}
use cgroups_rs.Systemd.Slice.{is_slice_unit, is_scope_unit, slice_suffix, scope_suffix}
use cgroups_rs.Manager.Proc.Colons.{is_colon, cgroup_line, line_pieces}
use cgroups_rs.Manager.Systemd.{default_slice, new_unit_name, parse_slice_and_unit}

-- The name is that of a scope behind a prefix.
prefixed :
    (prefix name : Text) → ends_with scope_suffix (prefix ++ b'-' ∷ (name ++ scope_suffix)) ≡ true
prefixed prefix name =
    ap (ends_with scope_suffix) (sym (append_assoc prefix (b'-' ∷ name) scope_suffix))
    ∙ ends_with-append scope_suffix (prefix ++ b'-' ∷ name)

new_unit_name-IsUnit :
    (prefix name : Text)
    → (is_slice_unit (new_unit_name prefix name) || is_scope_unit (new_unit_name prefix name))
      ≡ true
unfolding new_unit_name is_slice_unit is_scope_unit
new_unit_name-IsUnit prefix name = elim (Bool-cases (ends_with slice_suffix name)) [
  | inl e ↦ rw (e, e) refl
  | inr e ↦ elim (Bool-cases (is_empty prefix)) [
    | inl k ↦ rw (e, k, ends_with-append scope_suffix name) (ground arith)
    | inr k ↦ rw (e, k, prefixed prefix name) (ground arith)
  ]
]

-- A path of three pieces without colons names the slice in front, or the default one, and a unit
-- that is a slice or a scope.
pub parse_slice_and_unit-cgroup_line :
    (slice prefix name : Text)
    → Free is_colon slice
    → Free is_colon prefix
    → Free is_colon name
    → (parse_slice_and_unit (cgroup_line slice prefix name)
        ≡ ok (if is_empty slice then default_slice else slice, new_unit_name prefix name))
      × ((is_slice_unit (new_unit_name prefix name) || is_scope_unit (new_unit_name prefix name))
          ≡ true)
unfolding parse_slice_and_unit
parse_slice_and_unit-cgroup_line slice prefix name s p n = (
  rw (line_pieces slice prefix name s p, split_by-Free is_colon name n) refl,
  new_unit_name-IsUnit prefix name,
)
