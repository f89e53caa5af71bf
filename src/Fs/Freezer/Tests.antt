-- ===== src/Fs/Freezer/Tests.antt =====
-- Freezing on a host with one file.
use cgroups_rs.Base.{◌≡◌, refl, false, ok}
use cgroups_rs.Text.{Text, codes}
use cgroups_rs.Fs.Host.{Place, push}
use cgroups_rs.Fs.OneFile.{one_file, one_file_stored}
use cgroups_rs.Fs.Freezer.{frozen, thawed, state_file, freeze, thaw, state}
use cgroups_rs.Fs.Freezer.States.{state-freeze-thaw}

abbrev group : Place
group = record { base = codes "/"; path = codes "/f"; v2 = false }

state-freeze-thaw_example :
    (s1 : Text) × (s2 : Text) × (freeze one_file group (codes "THAWED\n") ≡ (ok tt, s1))
    × (state one_file group s1 ≡ (ok frozen, s1))
    × (thaw one_file group s1 ≡ (ok tt, s2))
    × (state one_file group s2 ≡ (ok thawed, s2))
state-freeze-thaw_example =
    state-freeze-thaw one_file group (one_file_stored (push group.path (state_file group)))
      (codes "THAWED\n") tt tt

freeze_test : freeze one_file group (codes "THAWED\n") ≡ (ok tt, codes "FROZEN\n")
unfolding freeze
freeze_test = refl
