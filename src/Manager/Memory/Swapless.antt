-- ===== src/Manager/Memory/Swapless.antt =====
-- A limit of memory in version 2 beside a swap limit that is not set.
use cgroups_rs.Base.{
  ltb_ℤ, leb_ℤ, ◌&&◌, Bool, ◌∙◌, ap, none, some, ◌≤◌, leb, err, if◌then◌else◌, ℕ, pos, minus_one,
  ◌<◌, ◌≡◌, refl, true, false, ok, arith, eq_ℤ,
}
use cgroups_rs.Text.{Text, codes}
use cgroups_rs.Number.Print.{print}
use cgroups_rs.Number.Signed.{print_int}
use cgroups_rs.Io.{Io, error, raise, ◌>>◌, when_some}
use cgroups_rs.Fs.Host.{Host, Place, write_value}
use cgroups_rs.Fs.Memory.Limits.{set_limit, set_memswap_limit, set_soft_limit}
use cgroups_rs.Manager.Conv.{memory_swap_to_cgroup_v2}
use cgroups_rs.Manager.Memory.{
  LinuxMemory, is_none, from_fs, set_memory, set_memory_v2, set_limits_v2, write_limits_v2, is_zero,
}
use cgroups_rs.Manager.Error.{Error, invalid_linux_resource}
use cgroups_rs.Fs.Memory.Usage.{Memory, memory_stat}

positive : (n : ℕ) → 0 < n → (eq_ℤ (pos n) minus_one ≡ false) × (is_zero (pos n) ≡ false)
positive n h = (ground arith, ground arith)

not_all : (b : Bool) → (b && false && true) ≡ false
not_all true = refl
not_all false = refl

not_nonpositive : (n : ℕ) → 0 < n → leb_ℤ (pos n) (pos 0) ≡ false
not_nonpositive n h = ground arith

is_positive : (n : ℕ) → 0 < n → ltb_ℤ (pos 0) (pos n) ≡ true
is_positive n h = ground arith

unset_is_zero : (n : ℕ) → 0 < n → memory_swap_to_cgroup_v2 (pos 0) (pos n) ≡ ok (pos 0)
unfolding memory_swap_to_cgroup_v2
unset_is_zero n h = rw ((positive n h).0) refl

module _ (h : Host) (base path : Text) where
  abbrev pub version_two : Place
  version_two = record { base = base; path = path; v2 = true }

  open h use {State}

  -- Swap is turned off, then the two limits are set.
  abbrev pub swap_off : LinuxMemory → ℕ → Io State Error (Unit {0})
  swap_off m n =
      from_fs (write_value h version_two (codes "memory.swap.max") (codes "0"))
      >> (from_fs (write_value h version_two (codes "memory.max") (print n))
          >> when_some m.reservation (λ r. from_fs (set_soft_limit h version_two r)))

  memory_set :
      (n : ℕ)
      → 0 < n
      → set_limit h version_two (pos n) ≡ write_value h version_two (codes "memory.max") (print n)
  unfolding set_limit print_int
  memory_set n p = rw ((positive n p).0) refl

  pub write_limits_v2-unset :
      (m : LinuxMemory) (n : ℕ)
      → 0 < n
      → write_limits_v2 h version_two m (pos n) (pos 0) ≡ swap_off m n
  unfolding write_limits_v2 set_memswap_limit print_int print
  write_limits_v2-unset m n p = rw (unset_is_zero n p, memory_set n p, (positive n p).1) refl

  -- The fields and the state behind the checks of the usage.
  checked :
      (m : LinuxMemory) (n : ℕ) (stat : Memory) (s t : State)
      → m.limit ≡ some (pos n)
      → m.swap ≡ none
      → 0 < n
      → memory_stat h version_two s ≡ (ok stat, t)
      → set_memory h true (some version_two) m s
        ≡ (if leb n stat.usage_in_bytes
              then raise invalid_linux_resource
              else write_limits_v2 h version_two m (pos n) (pos 0))
            t
  unfolding set_memory set_memory_v2 set_limits_v2
  checked m n stat s t limit swap p read =
      rw (limit, swap, not_all (is_none m.reservation), not_nonpositive n p, read, is_positive n p)
        refl

  -- In version 2, for a positive limit of memory and no swap limit, where the statistics of memory
  -- can be read: if the usage is below the limit, the manager first writes 0 to the file of the swap
  -- limit, which turns swap off, and then sets the limit of memory and the soft limit; if the usage
  -- has reached the limit, it fails with `InvalidLinuxResource` and writes nothing.
  pub set_memory-swapless :
      (m : LinuxMemory) (n : ℕ) (stat : Memory) (s t : State)
      → m.limit ≡ some (pos n)
      → m.swap ≡ none
      → 0 < n
      → memory_stat h version_two s ≡ (ok stat, t)
      → (stat.usage_in_bytes < n → set_memory h true (some version_two) m s ≡ swap_off m n t)
        × (n ≤ stat.usage_in_bytes
            → set_memory h true (some version_two) m s ≡ (err (error invalid_linux_resource), t))
  set_memory-swapless m n stat s t limit swap p read =
      let same = checked m n stat s t limit swap p read in
      (
        λ below.
            let free : leb n stat.usage_in_bytes ≡ false = ground (arith, below) in
            same ∙ rw free (ap (λ f. f t) (write_limits_v2-unset m n p)),
        λ above.
            let full : leb n stat.usage_in_bytes ≡ true = ground (arith, above) in
            same ∙ rw full refl,
      )
