-- ===== src/Manager/Memory/Tests.antt =====
-- The two limits on a host that has these two files and nothing else.
use cgroups_rs.Base.{
  true, ◌<◌, ℕ, ◌-◌, ◌^◌, ◌≤◌, ◌≡◌, refl, false, ℤ, pos, negsuc, [], ◌∷◌, ◌++◌, ok, err, Option,
  none, some, arith, inl, inr, Bool-cases, leb, if◌then◌else◌,
}
use cgroups_rs.Text.{Text, codes, text_eq}
use cgroups_rs.Number.Print.{print}
use cgroups_rs.Number.Signed.{parse_i64, parse_int, print_int, parse_i64-print_int}
use cgroups_rs.Io.{Io, error}
use cgroups_rs.Io.Answers.{Answers}
use cgroups_rs.Fs.Host.{Host, Place, push}
use cgroups_rs.Fs.Memory.Kernel.{Kernel, IsLimit}
use cgroups_rs.Fs.OneTree.{one_tree}
use cgroups_rs.Dict.{Dict}
use cgroups_rs.Fs.Memory.Usage.{memory_stat}
use cgroups_rs.Manager.Error.{invalid_linux_resource}
use cgroups_rs.Manager.Memory.{LinuxMemory, set_memory, set_mem_and_memswap_v1}
use cgroups_rs.Manager.Memory.Swapless.{version_two, swap_off, set_memory-swapless}
use cgroups_rs.Manager.Memory.Order.{set_mem_and_memswap_v1-takes}

abbrev place : Place
place = record { base = codes "/"; path = codes "/m"; v2 = false }

abbrev limit_path : Text
limit_path = codes "/m/memory.limit_in_bytes"

abbrev memsw_path : Text
memsw_path = codes "/m/memory.memsw.limit_in_bytes"

abbrev capped : ℕ → ℕ
capped n = if leb n (2 ^ 63 - 1) then n else 2 ^ 63 - 1

abbrev kept : ℤ → ℕ
kept (pos n) = capped n
kept (negsuc n) = 2 ^ 63 - 1

abbrev State : Type 0
State = ℕ × ℕ

abbrev write_limit : Option ℤ → Io State ℕ (Unit {0})
write_limit none s = (err (error 22), s)
write_limit (some z) (l, m) =
    if leb (kept z) (capped m) then (ok tt, (kept z, m)) else (err (error 22), (l, m))

abbrev write_memsw : Option ℤ → Io State ℕ (Unit {0})
write_memsw none s = (err (error 22), s)
write_memsw (some z) (l, m) =
    if leb (capped l) (kept z) then (ok tt, (l, kept z)) else (err (error 22), (l, m))

write_file : Text → Text → Io State ℕ (Unit {0})
unfolding text_eq parse_int
write_file file t s =
    if text_eq file limit_path
    then write_limit (parse_i64 t) s
    else if text_eq file memsw_path
    then write_memsw (parse_i64 t) s
    else (err (error 2), s)

read_file : Text → Io State ℕ Text
unfolding text_eq print
read_file file s =
    if text_eq file limit_path
    then (ok (print (capped s.0) ++ b'\n' ∷ []), s)
    else (err (error 2), s)

abbrev two_limits : Host
two_limits = record {
  State = State;
  create = λ p s. (ok tt, s);
  write_all = write_file;
  open_file = λ p s. (ok tt, s);
  read_to_string = read_file;
  read_lines = λ p s. ([], s);
}

read_file-Answers : (file : Text) (s : State) → Answers (read_file file) s
unfolding read_file
read_file-Answers file s = elim (Bool-cases (text_eq file limit_path)) [
  | inl e ↦ inl (print (capped s.0) ++ b'\n' ∷ [], rw e refl)
  | inr e ↦ inr (2, rw e refl)
]

kept-le : (z : ℤ) → kept z ≤ 2 ^ 63 - 1
kept-le (pos n) = ground arith
kept-le (negsuc n) = omega arith

write_limit-takes :
    (z : ℤ) (s : State)
    → IsLimit z
    → kept z ≤ capped s.1
    → (t : State) × (write_file limit_path (print_int z) s ≡ (ok tt, t))
      × (capped t.0 ≡ kept z)
      × (capped t.1 ≡ capped s.1)
unfolding write_file text_eq
write_limit-takes z s range fits = (
  (kept z, s.1),
  rw (parse_i64-print_int z range.1) (ground (arith, fits)),
  ground (arith, kept-le z),
  refl,
)

write_memsw-takes :
    (z : ℤ) (s : State)
    → IsLimit z
    → capped s.0 ≤ kept z
    → (t : State) × (write_file memsw_path (print_int z) s ≡ (ok tt, t))
      × (capped t.0 ≡ capped s.0)
      × (capped t.1 ≡ kept z)
unfolding write_file text_eq
write_memsw-takes z s range fits = (
  (s.0, kept z),
  rw (parse_i64-print_int z range.1) (ground (arith, fits)),
  refl,
  ground (arith, kept-le z),
)

two_limits_kernel : Kernel two_limits place
unfolding push read_file
two_limits_kernel = record {
  limit = λ s. capped s.0;
  memsw = λ s. capped s.1;
  stored = kept;
  Reclaims = λ n. Unit;
  opening = λ file s. inl (tt, refl);
  reading = read_file-Answers;
  numa_form = λ t s e. cc;
  oom_form = λ t s e. cc;
  limit_opens = λ s. refl;
  limit_reads = λ s. refl;
  limit_i64 = λ s. ground arith;
  stored_limit = λ s. ground arith;
  stored_monotone = λ a b h. ground arith;
  stored_unlimited = λ z. ground (arith, kept-le z);
  below_unlimited = λ s. ground arith;
  limit_creates = λ s. refl;
  memsw_creates = λ s. refl;
  takes_limit = λ z s range _ fits. write_limit-takes z s range fits;
  takes_memsw = λ z s range _ fits. write_memsw-takes z s range fits;
}

set_mem_and_memswap_v1-takes_example :
    (t : State) × (set_mem_and_memswap_v1 two_limits (some place) (pos 300) (pos 400) (100, 200)
      ≡ (ok tt, t))
    × (capped t.0 ≡ 300)
    × (capped t.1 ≡ 400)
unfolding two_limits_kernel
set_mem_and_memswap_v1-takes_example =
    set_mem_and_memswap_v1-takes two_limits place two_limits_kernel (pos 300) (pos 400) (100, 200)
      refl (omega arith, (omega arith, omega arith)) (omega arith, (omega arith, omega arith)) refl
      refl tt tt (omega arith) (omega arith)

abbrev only_limit : LinuxMemory
only_limit = record {
  limit = some (pos 1048576);
  reservation = none;
  swap = none;
  swappiness = none;
  disable_oom_killer = none;
}

-- A group that uses 500 bytes.
abbrev used : Dict Text
used =
    (codes "/m/memory.current", codes "500\n")
    ∷ (codes "/m/memory.swap.max", codes "max\n")
    ∷ (codes "/m/memory.max", codes "max\n")
    ∷ []

set_memory-swapless_example :
    (500 < 1048576
      → set_memory one_tree true
          (some (version_two one_tree (codes "/") (codes "/m")))
          only_limit
          used
        ≡ swap_off one_tree (codes "/") (codes "/m") only_limit 1048576 used)
    × (1048576 ≤ 500
        → set_memory one_tree true
            (some (version_two one_tree (codes "/") (codes "/m")))
            only_limit
            used
          ≡ (err (error invalid_linux_resource), used))
unfolding memory_stat push
set_memory-swapless_example =
    set_memory-swapless one_tree (codes "/") (codes "/m") only_limit 1048576 _ used used refl refl
      (omega arith) refl
