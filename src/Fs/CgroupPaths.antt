-- ===== src/Fs/CgroupPaths.antt =====
-- fs/cgroup.rs and fs/hierarchies.rs: the texts of /proc that say where a process's control groups
-- are.
use cgroups_rs.Base.{◌≡◌, refl, List, [], ◌∷◌, Option, none, some, if◌then◌else◌}
use cgroups_rs.Text.{Text, codes, text_eq, trim}
use cgroups_rs.Text.Split.{split, split_by, split_text, split_once}
use cgroups_rs.Text.Lines.{lines}
use cgroups_rs.Text.Affix.{trim_start_text}
use cgroups_rs.Dict.{Dict, insert}

-- Every key with the same value.
unfoldable pub insert_all : List Text → Text → Dict Text → Dict Text
unfolding insert
insert_all [] path m = m
insert_all (key ∷ keys) path m = insert_all keys path (insert key path m)

abbrev behind_first : Option (Text × Text) → Text
behind_first none = []
behind_first (some (a, b)) = b

abbrev with_paths : Option (Text × Text) → Dict Text → Dict Text
with_paths none m = m
with_paths (some (subsystems, path)) m = insert_all (split b',' subsystems) path m

-- One line of /proc/<pid>/cgroup, `hierarchy:subsystems:path`, whose path may hold colons.
unfoldable pub path_of_line : Text → Dict Text → Dict Text
unfolding split_once split_by insert_all
path_of_line line m = with_paths (split_once b':' (behind_first (split_once b':' line))) m

unfoldable pub paths_of_lines : List Text → Dict Text → Dict Text
unfolding path_of_line
paths_of_lines [] m = m
paths_of_lines (l ∷ ls) m = paths_of_lines ls (path_of_line l m)

-- `get_cgroups_relative_paths_by_path`, from the content of the file.
unfoldable pub relative_paths_of_content : Text → Dict Text
unfolding lines paths_of_lines
relative_paths_of_content content = paths_of_lines (lines content) []

unfoldable pub get_cgroup_destination : Text → Text → Text
unfolding text_eq trim_start_text
get_cgroup_destination mount_root pidpath =
    trim_start_text (if text_eq mount_root (codes "/") then [] else mount_root) pidpath

pub record Mountinfo : Type 0 where
  pub mount_root : Text
  pub mount_point : Text
  pub fs_type : Text × Option Text
  pub super_opts : List Text

-- The type of a file system, with a subtype behind a dot.
abbrev fs_type_of : List Text → Option (Text × Option Text)
fs_type_of (a ∷ []) = some (a, none)
fs_type_of (a ∷ b ∷ []) = some (a, some b)
fs_type_of _ = none

abbrev mountinfo_with : Text → Text → Text → Option (Text × Option Text) → Option Mountinfo
mountinfo_with root point opts none = none
mountinfo_with root point opts (some t) = some (record {
  mount_root = root;
  mount_point = point;
  fs_type = t;
  super_opts = split b',' (trim opts);
})

-- The words in front of the dash, at least six, and those behind it, at least three.
abbrev mountinfo_of : List Text → List Text → Option Mountinfo
mountinfo_of (a ∷ b ∷ c ∷ root ∷ point ∷ f ∷ more) (type_text ∷ source ∷ opts ∷ rest) =
    mountinfo_with root point opts (fs_type_of (split b'.' (trim type_text)))
mountinfo_of _ _ = none

abbrev halves : List Text → Option Mountinfo
halves (a ∷ b ∷ []) = mountinfo_of (split b' ' (trim a)) (split b' ' (trim b))
halves _ = none

unfoldable pub parse_mountinfo_for_line : Text → Option Mountinfo
unfolding split_text split_by trim
parse_mountinfo_for_line line = halves (split_text (codes " - ") line)

abbrev kept : Option Mountinfo → List Mountinfo → List Mountinfo
kept none r = r
kept (some mi) r = if text_eq mi.fs_type.0 (codes "cgroup") then mi ∷ r else r

-- `mountinfo_file`, from the lines that could be read.
unfoldable pub mountinfo_of_lines : List Text → List Mountinfo
unfolding parse_mountinfo_for_line text_eq
mountinfo_of_lines [] = []
mountinfo_of_lines (l ∷ ls) = kept (parse_mountinfo_for_line l) (mountinfo_of_lines ls)

mountinfo_test :
    parse_mountinfo_for_line (
      codes
        "29 26 0:26 / /sys/fs/cgroup/cpuset,cpu rw,nosuid shared:10 - cgroup.x cgroup rw,cpuset")
    ≡ some (record {
      mount_root = codes "/";
      mount_point = codes "/sys/fs/cgroup/cpuset,cpu";
      fs_type = (codes "cgroup", some (codes "x"));
      super_opts = codes "rw" ∷ codes "cpuset" ∷ [];
    })
unfolding parse_mountinfo_for_line
mountinfo_test = refl
