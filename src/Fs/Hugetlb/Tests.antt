-- ===== src/Fs/Hugetlb/Tests.antt =====
-- A page size as the kernel names it.
use cgroups_rs.Base.{◌≡◌, refl, ok, returns, arith}
use cgroups_rs.Text.{codes, text_eq, contains_char}
use cgroups_rs.Number.Print.{print}
use cgroups_rs.Dict.{get}
use cgroups_rs.Fs.Hugetlb.{parse_size, get_binary_size_map}
use cgroups_rs.Fs.Hugetlb.Size.{small, parse_size-print}

parse_size-print_example : parse_size (codes "2048kb") get_binary_size_map ≡ returns (ok 2097152)
unfolding print get_binary_size_map get text_eq contains_char
parse_size-print_example =
    parse_size-print 2048 b'k' 1024 (codes "b") get_binary_size_map small refl refl (omega arith)
      (omega arith)
