-- ===== src/Manager/BlkioStat/Tests.antt =====
-- Values of a keyed text.
use cgroups_rs.Base.{◌≡◌, refl, some, none}
use cgroups_rs.Text.{codes}
use cgroups_rs.Number.{parse_u64, parse_uint}
use cgroups_rs.Manager.BlkioStat.{parse_value_from_tuples}

tuples_test :
    (parse_value_from_tuples parse_u64 (codes "system 100000\nuser 200000") (codes "user")
      ≡ some 200000)
    × (parse_value_from_tuples parse_u64 (codes "system 100000\nuser 200000") (codes "user1")
        ≡ none)
unfolding parse_value_from_tuples parse_uint
tuples_test = (refl, refl)
