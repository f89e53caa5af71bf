-- ===== src/Fs/Pid/Limit.antt =====
-- The limit that `apply` sets and reads back.
use cgroups_rs.Base.{◌≡◌, refl, true, [], ◌∷◌, ◌++◌, ok, some, arith}
use cgroups_rs.Text.{codes}
use cgroups_rs.Fs.Host.{Host, Place, push, open_for_write}
use cgroups_rs.Fs.Stored.{Stored, read_text-content}
use cgroups_rs.Fs.MaxValue.{MaxValue, max, value, print_max_value}
use cgroups_rs.Fs.MaxValue.RoundTrip.{IsInRange, parse_max_value-line}
use cgroups_rs.Fs.Pid.{apply, set_pid_max, get_pid_max, same_max}

same_max_refl : (m : MaxValue) → same_max m m ≡ true
same_max_refl max = refl
same_max_refl (value z) = ground arith

module _ (h : Host) (c : Place) (k : Stored h (push c.path (codes "pids.max"))) where
  pub set_pid_max-written :
      (m : MaxValue) (s : h.State)
      → k.Accepted (print_max_value m)
      → set_pid_max h c m s ≡ (ok tt, k.written (print_max_value m) s)
  unfolding set_pid_max open_for_write
  set_pid_max-written m s a = rw (k.creates s, k.writes (print_max_value m) s a) refl

  pub get_pid_max-content :
      (m : MaxValue) (s : h.State)
      → IsInRange m
      → k.content s ≡ print_max_value m ++ b'\n' ∷ []
      → get_pid_max h c s ≡ (ok m, s)
  unfolding get_pid_max
  get_pid_max-content m s r e =
      rw (read_text-content h c (codes "pids.max") k (codes "pids.max") s)
        (rw e (rw (parse_max_value-line m r) refl))

  -- Where the kernel accepts a limit and the file keeps it, `apply` with that limit succeeds, and
  -- `get_pid_max` gives the limit then.
  pub apply-get_pid_max :
      (m : MaxValue) (s : h.State)
      → IsInRange m
      → k.Accepted (print_max_value m)
      → (after : h.State) × (apply h c (record { maximum_number_of_processes = some m }) s
          ≡ (ok tt, after))
        × (get_pid_max h c after ≡ (ok m, after))
  unfolding apply
  apply-get_pid_max m s r a =
      let after = k.written (print_max_value m) s in
      let back = get_pid_max-content m after r (k.kept (print_max_value m) s a) in
      (after, rw (set_pid_max-written m s a, back, same_max_refl m) refl, back)
