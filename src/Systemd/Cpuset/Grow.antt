-- ===== src/Systemd/Cpuset/Grow.antt =====
-- The bits of a vector as the CPUs that they stand for, through growing and setting.
use cgroups_rs.Base.{ℕ, zero, suc, ◌+◌, ◌%◌, ◌<◌, ◌≡◌, refl, Bool, false, arith, ltb, if◌then◌else◌}
use cgroups_rs.Systemd.Cpuset.{local_idx, grow_over}
use cgroups_rs.Systemd.Cpuset.Vectors.{BitVec}

pub local_idx_injective : (i j : ℕ) → local_idx i ≡ local_idx j → i ≡ j
unfolding local_idx
local_idx_injective i j h = omega arith

pub local_idx-lt : (i n : ℕ) → n % 8 ≡ 0 → i < n → local_idx i < n
unfolding local_idx
local_idx-lt i n e h = omega arith

pub local_idx-ge : (i n : ℕ) → n % 8 ≡ 0 → local_idx i < n → i < n
unfolding local_idx
local_idx-ge i n e h = omega arith

module _ (b : BitVec) where
  open b use {Vector, len, get, grow, set, len-grow, get-grow, len-set, get-set}

  -- Whole bytes.
  abbrev pub IsWhole : Vector → Type 0
  IsWhole v = len v % 8 ≡ 0

  -- The bit of CPU `i`, false where the vector does not reach.
  unfoldable pub cpu_bit : Vector → ℕ → Bool
  cpu_bit v i = if ltb i (len v) then get v (local_idx i) else false

  grow-IsWhole : (v : Vector) → IsWhole v → IsWhole (grow v 8 false)
  grow-IsWhole v h = omega (arith, len-grow v 8 false)

  cpu_bit-grow : (v : Vector) (i : ℕ) → IsWhole v → cpu_bit (grow v 8 false) i ≡ cpu_bit v i
  unfolding cpu_bit
  cpu_bit-grow v i h = ground (
    arith,
    len-grow v 8 false,
    get-grow v 8 false (local_idx i),
    local_idx-lt i (len v + 8),
    local_idx-lt i (len v),
    local_idx-ge i (len v),
  )

  -- The loop ends with its test false: the vector reaches over `left`.
  pub lt-len-grow_over :
      (fuel left : ℕ) (v : Vector) → left < len v + fuel → left < len (grow_over b fuel left v)
  unfolding grow_over
  lt-len-grow_over zero left v h = omega arith
  lt-len-grow_over (suc fuel) left v h =
      ground (arith, len-grow v 8 false, lt-len-grow_over fuel left (grow v 8 false))

  pub grow_over-IsWhole :
      (fuel left : ℕ) (v : Vector) → IsWhole v → IsWhole (grow_over b fuel left v)
  unfolding grow_over
  grow_over-IsWhole zero left v h = h
  grow_over-IsWhole (suc fuel) left v h =
      ground (arith, grow_over-IsWhole fuel left (grow v 8 false), grow-IsWhole v h)

  pub cpu_bit-grow_over :
      (fuel left : ℕ) (v : Vector) (i : ℕ)
      → IsWhole v
      → cpu_bit (grow_over b fuel left v) i ≡ cpu_bit v i
  unfolding grow_over
  cpu_bit-grow_over zero left v i h = refl
  cpu_bit-grow_over (suc fuel) left v i h =
      ground (
        arith,
        cpu_bit-grow_over fuel left (grow v 8 false) i,
        grow-IsWhole v h,
        cpu_bit-grow v i h,
      )
