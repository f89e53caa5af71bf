-- ===== src/Manager/Memory/Order.antt =====
-- The order in which the two limits of version 1 are written.
use cgroups_rs.Base.{
  zero, suc, ℤ, pos, negsuc, minus_one, ◌≤◌, ◌≤ℤ◌, ◌≡◌, refl, true, false, ◌||◌, some, ok, arith,
  inl, inr, Bool-cases, eq_ℤ, ltb_ℤ,
}
use cgroups_rs.Fs.Host.{Host, Place, write_value, open_for_write}
use cgroups_rs.Fs.Memory.Usage.{Memory}
use cgroups_rs.Fs.Memory.Limits.{set_limit, set_memswap_limit}
use cgroups_rs.Fs.Memory.Kernel.{Kernel, IsLimit, memory_stat-Yields}
use cgroups_rs.Manager.Memory.{
  effective_swap, is_zero, from_fs, set_in_order, set_both, set_mem_and_memswap_v1,
}

module _ (h : Host) (c : Place) (k : Kernel h c) where
  set_limit-takes :
      (z : ℤ) (s : h.State)
      → c.v2 ≡ false
      → IsLimit z
      → k.Reclaims (k.stored z)
      → k.stored z ≤ k.memsw s
      → (t : h.State) × (from_fs (set_limit h c z) s ≡ (ok tt, t))
        × (k.limit t ≡ k.stored z)
        × (k.memsw t ≡ k.memsw s)
  unfolding set_limit write_value open_for_write
  set_limit-takes z s v low reclaims fits =
      let (t, e, l, m) = k.takes_limit z s low reclaims fits in
      (t, rw (v, k.limit_creates s, e) refl, l, m)

  set_memswap_limit-takes :
      (z : ℤ) (s : h.State)
      → c.v2 ≡ false
      → IsLimit z
      → k.Reclaims (k.stored z)
      → k.limit s ≤ k.stored z
      → (t : h.State) × (from_fs (set_memswap_limit h c z) s ≡ (ok tt, t))
        × (k.limit t ≡ k.limit s)
        × (k.memsw t ≡ k.stored z)
  unfolding set_memswap_limit write_value open_for_write
  set_memswap_limit-takes z s v low reclaims fits =
      let (t, e, l, m) = k.takes_memsw z s low reclaims fits in
      (t, rw (v, k.memsw_creates s, e) refl, l, m)

  -- The value for the limit of memory and swap stays at or above a limit that is below the number.
  above :
      (z : ℤ) (s : h.State)
      → (eq_ℤ z minus_one || ltb_ℤ (pos (k.limit s)) z) ≡ true
      → k.limit s ≤ k.stored z
  above (pos n) s e =
      let rounded = k.stored_monotone (k.limit s) n (ground arith) in
      omega (arith, rounded, k.stored_limit s)
  above (negsuc zero) s e = k.below_unlimited s
  above (negsuc (suc n)) s e = ground arith

  -- A positive number that the limit is at or above.
  below :
      (z : ℤ) (s : h.State)
      → (eq_ℤ z minus_one || ltb_ℤ (pos (k.limit s)) z) ≡ false
      → minus_one ≤ℤ z
      → k.stored z ≤ k.limit s
  below (pos n) s e low =
      let rounded = k.stored_monotone n (k.limit s) (ground arith) in
      omega (arith, rounded, k.stored_limit s)
  below (negsuc zero) s e low = ground arith
  below (negsuc (suc n)) s e low = ground arith

  set_both-takes :
      (limit swap : ℤ) (m : Memory) (s : h.State)
      → c.v2 ≡ false
      → m.limit_in_bytes ≡ pos (k.limit s)
      → IsLimit limit
      → IsLimit swap
      → is_zero limit ≡ false
      → is_zero swap ≡ false
      → k.Reclaims (k.stored limit)
      → k.Reclaims (k.stored swap)
      → k.stored limit ≤ k.stored swap
      → k.limit s ≤ k.memsw s
      → (t : h.State) × (set_both h c limit swap m s ≡ (ok tt, t))
        × (k.limit t ≡ k.stored limit)
        × (k.memsw t ≡ k.stored swap)
  unfolding set_both set_in_order
  set_both-takes limit swap m s v shown low_l low_s set_l set_s rl rs ordered valid =
      elim (Bool-cases (eq_ℤ swap minus_one || ltb_ℤ (pos (k.limit s)) swap)) [
        | inl e ↦
            let (t, g, l, w) = set_memswap_limit-takes swap s v low_s rs (above swap s e) in
            let (u, f, l2, w2) = set_limit-takes limit t v low_l rl (omega arith) in
            (u, rw (shown, e, g, f) refl, l2, omega arith)
        | inr e ↦
            let (t, g, l, w) =
              set_limit-takes limit s v low_l rl (omega (arith, below swap s e low_s.0)) in
            let (u, f, l2, w2) = set_memswap_limit-takes swap t v low_s rs (omega arith) in
            (u, rw (shown, e, set_l, set_s, g, f) refl, omega arith, w2)
      ]

  -- On a kernel as in Fs.Memory.Kernel and in version 1, where the limit of memory is at most the
  -- limit of memory and swap, both values to be set are set (a swap of 0 beside a limit of -1 counts
  -- as -1), are -1 or more and fit in an `i64`, the kernel keeps at most as much for the first as
  -- for the second, and it can bring the use down to both: `set_mem_and_memswap_v1` succeeds, and
  -- the kernel has both values then, whatever the old ones were.
  pub set_mem_and_memswap_v1-takes :
      (limit swap : ℤ) (s : h.State)
      → c.v2 ≡ false
      → IsLimit limit
      → IsLimit (effective_swap limit swap)
      → is_zero limit ≡ false
      → is_zero (effective_swap limit swap) ≡ false
      → k.Reclaims (k.stored limit)
      → k.Reclaims (k.stored (effective_swap limit swap))
      → k.stored limit ≤ k.stored (effective_swap limit swap)
      → k.limit s ≤ k.memsw s
      → (t : h.State) × (set_mem_and_memswap_v1 h (some c) limit swap s ≡ (ok tt, t))
        × (k.limit t ≡ k.stored limit)
        × (k.memsw t ≡ k.stored (effective_swap limit swap))
  unfolding set_mem_and_memswap_v1
  set_mem_and_memswap_v1-takes limit swap s v low_l low_s set_l set_s rl rs ordered valid =
      let (m, read, shown) = memory_stat-Yields h c k s v in
      let (t, e, l, w) =
        set_both-takes limit (effective_swap limit swap) m s v shown low_l low_s set_l set_s rl rs
          ordered valid in
      (t, rw (set_l, set_s, read) e, l, w)
