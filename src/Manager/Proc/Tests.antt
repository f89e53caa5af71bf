-- ===== src/Manager/Proc/Tests.antt =====
-- Lines of /proc/self/cgroup.
use cgroups_rs.Base.{◌≡◌, refl, [], ◌∷◌, ◌++◌, panics}
use cgroups_rs.Text.{codes, text_eq}
use cgroups_rs.Text.Split.{split}
use cgroups_rs.Fs.CgroupPaths.{insert_all, path_of_line}
use cgroups_rs.Manager.Proc.{subsystems_of_line, parse_cgroup_subsystems, parse_cgroup_mountinfo}
use cgroups_rs.Manager.Proc.Colons.{
  cgroup_line, subsystems_of_line-path_of_line, subsystems_of_line_colon,
}

subsystems_of_line-path_of_line_example :
    subsystems_of_line (cgroup_line (codes "4") (codes "cpu") (codes "/a")) []
    ≡ path_of_line (cgroup_line (codes "4") (codes "cpu") (codes "/a")) []
subsystems_of_line-path_of_line_example =
    subsystems_of_line-path_of_line (codes "4") (codes "cpu") (codes "/a") [] (refl, tt)
      (refl, (refl, (refl, tt))) (refl, (refl, tt))

subsystems_of_line_colon_example :
    (subsystems_of_line (cgroup_line (codes "4") (codes "cpu") (codes "/a" ++ b':' ∷ codes "b")) []
      ≡ [])
    × (path_of_line (cgroup_line (codes "4") (codes "cpu") (codes "/a" ++ b':' ∷ codes "b")) []
        ≡ insert_all (split b',' (codes "cpu")) (codes "/a" ++ b':' ∷ codes "b") [])
subsystems_of_line_colon_example =
    subsystems_of_line_colon (codes "4") (codes "cpu") (codes "/a") (codes "b") [] (refl, tt)
      (refl, (refl, (refl, tt))) (refl, (refl, tt))

subsystems_test :
    parse_cgroup_subsystems (codes "4:cpu,cpuacct:/a\n3:x:/a:b\n0::/c\n")
    ≡ (codes "cpu", codes "/a") ∷ (codes "cpuacct", codes "/a") ∷ ([], codes "/c") ∷ []
unfolding parse_cgroup_subsystems text_eq
subsystems_test = refl

-- A line of mountinfo without a dash panics.
mountinfo_panics : parse_cgroup_mountinfo [] (codes "29 26 0:26 / /sys rw\n") ≡ panics
unfolding parse_cgroup_mountinfo
mountinfo_panics = refl
