-- ===== src/Manager/Proc/Colons.antt =====
-- The manager's reading of a line of /proc/self/cgroup against that of the `fs` module.
use cgroups_rs.Base.{length, ◌<◌, arith, ℕ, ◌≡◌, refl, Bool, List, [], ◌∷◌, ◌++◌, ◌==◌, sym}
use cgroups_rs.Text.{Text}
use cgroups_rs.Text.Split.{
  split, split_by-append, split_by-Free, split_once-append, length-split_pos, Free,
}
use cgroups_rs.Dict.{Dict}
use cgroups_rs.Fs.CgroupPaths.{insert_all, path_of_line}
use cgroups_rs.Manager.Proc.{subsystems_of_line, subsystems_of_pieces}

abbrev pub is_colon : ℕ → Bool
is_colon c = c == b':'

-- `hierarchy:subsystems:path`
abbrev pub cgroup_line : Text → Text → Text → Text
cgroup_line hierarchy subsystems path = hierarchy ++ b':' ∷ (subsystems ++ b':' ∷ path)

-- The `fs` module takes all behind the second colon as the path.
path_taken :
    (hierarchy subsystems path : Text) (m : Dict Text)
    → Free is_colon hierarchy
    → Free is_colon subsystems
    → path_of_line (cgroup_line hierarchy subsystems path) m
      ≡ insert_all (split b',' subsystems) path m
unfolding path_of_line
path_taken hierarchy subsystems path m h k =
    rw (split_once-append b':' hierarchy (subsystems ++ b':' ∷ path) h)
      (rw (split_once-append b':' subsystems path k) refl)

pub line_pieces :
    (hierarchy subsystems path : Text)
    → Free is_colon hierarchy
    → Free is_colon subsystems
    → split b':' (cgroup_line hierarchy subsystems path) ≡ hierarchy ∷ subsystems ∷ split b':' path
line_pieces hierarchy subsystems path h k =
    rw (split_by-append is_colon hierarchy b':' (subsystems ++ b':' ∷ path) h refl)
      (rw (split_by-append is_colon subsystems b':' path k refl) refl)

-- On a line whose path has no colon the manager and the `fs` module read the same.
pub subsystems_of_line-path_of_line :
    (hierarchy subsystems path : Text) (m : Dict Text)
    → Free is_colon hierarchy
    → Free is_colon subsystems
    → Free is_colon path
    → subsystems_of_line (cgroup_line hierarchy subsystems path) m
      ≡ path_of_line (cgroup_line hierarchy subsystems path) m
unfolding subsystems_of_line
subsystems_of_line-path_of_line hierarchy subsystems path m h k p =
    rw (line_pieces hierarchy subsystems path h k)
      (rw (split_by-Free is_colon path p) (sym (path_taken hierarchy subsystems path m h k)))

passed_over :
    (a b c : Text) (ws : List Text) (m : Dict Text)
    → 0 < length ws
    → subsystems_of_pieces (a ∷ b ∷ c ∷ ws) m ≡ m
passed_over a b c [] m h = ground arith
passed_over a b c (w ∷ ws) m h = refl

-- On a line whose path has a colon they differ: the `fs` module takes the path under each
-- subsystem of the line, and the manager passes the line over.
pub subsystems_of_line_colon :
    (hierarchy subsystems front behind : Text) (m : Dict Text)
    → Free is_colon hierarchy
    → Free is_colon subsystems
    → Free is_colon front
    → (subsystems_of_line (cgroup_line hierarchy subsystems (front ++ b':' ∷ behind)) m ≡ m)
      × (path_of_line (cgroup_line hierarchy subsystems (front ++ b':' ∷ behind)) m
          ≡ insert_all (split b',' subsystems) (front ++ b':' ∷ behind) m)
unfolding subsystems_of_line
subsystems_of_line_colon hierarchy subsystems front behind m h k f = (
  rw (line_pieces hierarchy subsystems (front ++ b':' ∷ behind) h k) (
      rw (split_by-append is_colon front b':' behind f refl) (
        passed_over hierarchy subsystems front (split b':' behind) m
          (length-split_pos is_colon behind))),
  path_taken hierarchy subsystems (front ++ b':' ∷ behind) m h k,
)
