-- ===== src/Manager/Proc.antt =====
-- manager/fs.rs: the manager's own reading of /proc/self/cgroup and /proc/self/mountinfo.
pub mod Colons
mod Tests
use cgroups_rs.Base.{
  ℕ, Bool, List, [], ◌∷◌, Option, none, some, Outcome, returns, panics, unwrap, then_returns, ◌||◌,
  ◌++◌, get_elem?, if◌then◌else◌,
}
use cgroups_rs.Text.{Text, codes, text_eq}
use cgroups_rs.Text.Split.{split, split_by, split_text, split_whitespace}
use cgroups_rs.Text.Lines.{lines}
use cgroups_rs.Dict.{Dict, get, insert}
use cgroups_rs.Fs.CgroupPaths.{insert_all}

-- A line with other than three pieces is passed over.
abbrev subsystems_of_pieces : List Text → Dict Text → Dict Text
subsystems_of_pieces (hierarchy ∷ subsystems ∷ path ∷ []) m =
    insert_all (split b',' subsystems) path m
subsystems_of_pieces _ m = m

unfoldable pub subsystems_of_line : Text → Dict Text → Dict Text
unfolding split_by insert_all
subsystems_of_line line m = subsystems_of_pieces (split b':' line) m

unfoldable pub subsystems_of_lines : List Text → Dict Text → Dict Text
unfolding subsystems_of_line
subsystems_of_lines [] m = m
subsystems_of_lines (l ∷ ls) m = subsystems_of_lines ls (subsystems_of_line l m)

-- `parse_cgroup_subsystems`, from the content of the file.
unfoldable pub parse_cgroup_subsystems : Text → Dict Text
unfolding lines subsystems_of_lines
parse_cgroup_subsystems data_text = subsystems_of_lines (lines data_text) []

-- `splitn(2, pat)`: the text in front of the first pattern, and all behind it if there is one.
abbrev glued : Text → List Text → Text
glued pat [] = []
glued pat (a ∷ []) = a
glued pat (a ∷ b ∷ rest) = a ++ (pat ++ glued pat (b ∷ rest))

-- The mount point under each option that is a subsystem of the map.
unfoldable pub insert_mounts :
    Dict Text → List Text → Outcome Text → Dict Text → Outcome (Dict Text)
unfolding get insert
insert_mounts paths [] point mounts = returns mounts
insert_mounts paths (opt ∷ opts) point mounts =
    let other = insert_mounts paths opts point mounts in
    let found = then_returns point λ p. insert_mounts paths opts point (insert opt p mounts) in
    elim (get opt paths) [ none ↦ other | some _ ↦ found ]

abbrev is_cgroup : Text → Bool
is_cgroup fs_type = text_eq fs_type (codes "cgroup") || text_eq fs_type (codes "cgroup2")

abbrev mounts_of_parts : Dict Text → List Text → List Text → Dict Text → Outcome (Dict Text)
mounts_of_parts paths part1 (fs_type ∷ source ∷ opts ∷ []) mounts =
    if is_cgroup fs_type
    then insert_mounts paths (split b',' opts) (unwrap (get_elem? part1 4)) mounts
    else returns mounts
mounts_of_parts paths part1 _ mounts = returns mounts

-- A line without the dash panics.
abbrev mounts_of_halves : Dict Text → List Text → Dict Text → Outcome (Dict Text)
mounts_of_halves paths (a ∷ b ∷ rest) mounts =
    mounts_of_parts paths (split b' ' a) (split b' ' (glued (codes " - ") (b ∷ rest))) mounts
mounts_of_halves paths _ mounts = panics

unfoldable pub mounts_of_lines : Dict Text → List Text → Dict Text → Outcome (Dict Text)
unfolding split_text split_by text_eq insert_mounts
mounts_of_lines paths [] mounts = returns mounts
mounts_of_lines paths (l ∷ ls) mounts =
    then_returns (mounts_of_halves paths (split_text (codes " - ") l) mounts)
      (mounts_of_lines paths ls)

-- `parse_cgroup_mountinfo`, from the content of the file.
unfoldable pub parse_cgroup_mountinfo : Dict Text → Text → Outcome (Dict Text)
unfolding lines mounts_of_lines
parse_cgroup_mountinfo paths data_text = mounts_of_lines paths (lines data_text) []
