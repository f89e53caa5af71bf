-- ===== src/Systemd/Cpuset/Bits.antt =====
-- Setting bits: a single one, and those of a range.
use cgroups_rs.Base.{
  ℕ, zero, suc, ◌+◌, ◌≤◌, ◌<◌, ◌≡◌, refl, Bool, true, ◌||◌, ◌&&◌, arith, ◌==◌, ltb, leb, returns,
  lt→ltb, ap, ◌∙◌,
}
use cgroups_rs.Systemd.Cpuset.{local_idx, set_bit, set_range}
use cgroups_rs.Systemd.Cpuset.Vectors.{BitVec}
use cgroups_rs.Systemd.Cpuset.Grow.{IsWhole, cpu_bit, local_idx-lt, local_idx_injective}

module _ (b : BitVec) where
  open b use {Vector, len, get, set, len-set, get-set}

  pub set_bit-returns :
      (v : Vector) (j : ℕ)
      → IsWhole b v
      → j < len v
      → set_bit b v (local_idx j) ≡ returns (set v (local_idx j) true)
  unfolding set_bit
  set_bit-returns v j h lt = rw (lt→ltb _ _ (local_idx-lt j (len v) h lt))

  pub cpu_bit-set :
      (v : Vector) (j i : ℕ)
      → IsWhole b v
      → j < len v
      → cpu_bit b (set v (local_idx j) true) i ≡ (j == i || cpu_bit b v i)
  unfolding cpu_bit
  cpu_bit-set v j i h lt = ground (
    arith,
    len-set v (local_idx j) true,
    get-set v (local_idx j) true (local_idx i),
    local_idx-lt j (len v) h lt,
    local_idx_injective j i,
  )

  set_range_step :
      (n index : ℕ) (v : Vector)
      → IsWhole b v
      → index < len v
      → set_range b (suc n) index v ≡ set_range b n (index + 1) (set v (local_idx index) true)
  unfolding set_range
  set_range_step n index v h lt = rw (set_bit-returns v index h lt)

  in_step :
      (index i n : ℕ) (x : Bool)
      → ((leb (index + 1) i && ltb i (index + 1 + n)) || (index == i || x))
        ≡ ((leb index i && ltb i (index + suc n)) || x)
  in_step index i n x = ground arith

  -- The loop over a range that the vector reaches sets the CPUs of the range and no other.
  pub cpu_bit-set_range :
      (n index : ℕ) (v : Vector)
      → IsWhole b v
      → index + n ≤ len v
      → (w : Vector) × (set_range b n index v ≡ returns w)
        × (len w ≡ len v)
        × ((i : ℕ) → cpu_bit b w i ≡ ((leb index i && ltb i (index + n)) || cpu_bit b v i))
  cpu_bit-set_range zero index v h fits = (v, unfold set_range in refl, refl, λ i. ground arith)
  cpu_bit-set_range (suc n) index v h fits =
      let v' = set v (local_idx index) true in
      let (w, e, l, bits) =
        cpu_bit-set_range n (index + 1) v' (omega (arith, len-set v (local_idx index) true))
          (omega (arith, len-set v (local_idx index) true)) in
      (
        w,
        set_range_step n index v h (omega arith) ∙ e,
        l ∙ len-set v (local_idx index) true,
        λ i.
            bits i
            ∙ ap (λ (x : Bool). (leb (index + 1) i && ltb i (index + 1 + n)) || x)
                (cpu_bit-set v index i h (omega arith))
            ∙ in_step index i n (cpu_bit b v i),
      )
