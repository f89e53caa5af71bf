-- ===== src/Systemd/Cpuset.antt =====
-- systemd/cpuset.rs: a CPU or memory node list as the bit mask of a unit property. The bit vector
-- is the one of the crate `bit_vec`, taken as a parameter.
pub mod Vectors
pub mod Grow
pub mod Bits
pub mod Parts
pub mod Mask
mod Tests
use cgroups_rs.Base.{
  ℕ, zero, suc, ◌+◌, ◌-◌, ◌*◌, ◌/◌, ◌%◌, ◌≤◌, Bool, true, false, List, [], ◌∷◌, Result, ok, err,
  Option, none, some, Outcome, returns, panics, then_returns, ltb, leb, if◌then◌else◌,
}
use mathlib.Core.List.{reverse}
use cgroups_rs.Text.{Text, codes}
use cgroups_rs.Text.Split.{split, split_by}
use cgroups_rs.Number.{parse_u64, parse_uint}
use cgroups_rs.Systemd.Error.{Error, SystemdResult, invalid_argument}
use cgroups_rs.Systemd.Cpuset.Vectors.{BitVec}

abbrev pub byte_in_bits : ℕ
byte_in_bits = 8

-- The closure `local_idx`: the most significant bit of a byte comes first in the vector.
unfoldable pub local_idx : ℕ → ℕ
local_idx index = index / byte_in_bits * byte_in_bits + 7 - index % byte_in_bits

module _ (b : BitVec) where
  open b use {Vector, from_elem, len, grow, set, to_bytes}

  -- `bit_vec.set` panics out of range.
  pub set_bit : Vector → ℕ → Outcome Vector
  set_bit v i = if ltb i (len v) then returns (set v i true) else panics

  -- `while left >= bit_vec.len() { bit_vec.grow(BYTE_IN_BITS, false) }`, on fuel.
  pub grow_over : ℕ → ℕ → Vector → Vector
  grow_over zero left v = v
  grow_over (suc fuel) left v =
      let next = grow_over fuel left (grow v byte_in_bits false) in
      if leb (len v) left then next else v

  -- `for index in left..=right { bit_vec.set(local_idx(index), true) }`, by the rounds left.
  pub set_range : ℕ → ℕ → Vector → Outcome Vector
  unfolding set_bit local_idx
  set_range zero index v = returns v
  set_range (suc rounds) index v =
      then_returns (set_bit v (local_idx index)) (set_range rounds (index + 1))

  -- The pieces of one part of the list. Each round of the loop adds 8 bits, so `left + 1` rounds
  -- are enough.
  mark_pieces : List Text → Vector → Outcome (SystemdResult Vector)
  unfolding grow_over set_range parse_uint
  mark_pieces (x ∷ []) v = elim (parse_u64 x) [
    | none ↦ returns (err invalid_argument)
    | some left ↦
        then_returns (set_bit (grow_over (left + 1) left v) (local_idx left)) (λ w. returns (ok w))
  ]
  mark_pieces (x ∷ y ∷ []) v = elim (parse_u64 x) [
    | none ↦ returns (err invalid_argument)
    | some left ↦ elim (parse_u64 y) [
      | none ↦ returns (err invalid_argument)
      | some right ↦
          then_returns (set_range (right + 1 - left) left (grow_over (right + 1) right v))
            (λ w. returns (ok w))
    ]
  ]
  mark_pieces _ v = returns (err invalid_argument)

  abbrev marked :
      Outcome (SystemdResult Vector)
      → (Vector → Outcome (SystemdResult Vector))
      → Outcome (SystemdResult Vector)
  marked (returns (ok w)) f = f w
  marked (returns (err e)) f = returns (err e)
  marked panics f = panics

  pub mark_parts : List Text → Vector → Outcome (SystemdResult Vector)
  unfolding mark_pieces split_by
  mark_parts [] v = returns (ok v)
  mark_parts (part ∷ rest) v = marked (mark_pieces (split b'-' part) v) (mark_parts rest)

  abbrev mask_of : Outcome (SystemdResult Vector) → Outcome (SystemdResult (List ℕ))
  mask_of (returns (ok v)) = returns (ok (reverse (to_bytes v)))
  mask_of (returns (err e)) = returns (err e)
  mask_of panics = panics

  unfoldable pub convert_list_to_mask : Text → Outcome (SystemdResult (List ℕ))
  unfolding mark_parts
  convert_list_to_mask list = mask_of (mark_parts (split b',' list) (from_elem 8 false))

  -- `cpus` and `mems`: the property's name and the mask.
  abbrev named : Text → Outcome (SystemdResult (List ℕ)) → Outcome (SystemdResult (Text × List ℕ))
  named id (returns (ok mask)) = returns (ok (id, mask))
  named id (returns (err e)) = returns (err e)
  named id panics = panics

  unfoldable pub cpus : Text → Outcome (SystemdResult (Text × List ℕ))
  unfolding convert_list_to_mask
  cpus list = named (codes "AllowedCPUs") (convert_list_to_mask list)

  unfoldable pub mems : Text → Outcome (SystemdResult (Text × List ℕ))
  unfolding convert_list_to_mask
  mems list = named (codes "AllowedMemoryNodes") (convert_list_to_mask list)
