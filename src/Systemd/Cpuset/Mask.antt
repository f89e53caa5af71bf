-- ===== src/Systemd/Cpuset/Mask.antt =====
-- The mask of a list has the bits of the CPUs that the list names.
use cgroups_rs.Base.{
  ℕ, ◌-◌, ◌/◌, ◌%◌, ◌≡◌, ◌≢◌, refl, ◌∙◌, Bool, false, ◌||◌, List, [], ◌∷◌, ok, err, Outcome,
  returns, arith, ltb, Bool-cases, inl, inr, get_elem?,
}
use mathlib.Core.List.{reverse, reverse-reverse}
use mathlib.Core.Path.{subst}
use cgroups_rs.Text.{Text}
use cgroups_rs.Text.Split.{split}
use cgroups_rs.Fs.Error.{FsResult}
use cgroups_rs.Fs.Cpuset.{ranges_of, parse_range, covers}
use cgroups_rs.Systemd.Error.{SystemdResult, invalid_argument}
use cgroups_rs.Systemd.Cpuset.{local_idx, mask_of, convert_list_to_mask}
use cgroups_rs.Systemd.Cpuset.Vectors.{BitVec, bit_of}
use cgroups_rs.Systemd.Cpuset.Grow.{IsWhole, cpu_bit, local_idx-lt}
use cgroups_rs.Systemd.Cpuset.Parts.{AddsRanges, mark_parts-ranges_of}

-- Bit `i` of a mask, whose last byte holds the bits 0 to 7.
abbrev pub mask_bit : List ℕ → ℕ → Bool
mask_bit mask i = bit_of (get_elem? (reverse mask) (i / 8)) (i % 8)

-- What the mask must be, by what `parse_range` makes of the same text.
abbrev pub Agrees : FsResult (List (ℕ × ℕ)) → Outcome (SystemdResult (List ℕ)) → Type 0
Agrees (ok rs) o =
    (mask : List ℕ) × (o ≡ returns (ok mask)) × ((i : ℕ) → mask_bit mask i ≡ covers rs i)
Agrees (err e) o = o ≡ returns (err invalid_argument)

module _ (b : BitVec) where
  open b use {
    Vector, len, to_bytes, get, bit-to_bytes, none-to_bytes, from_elem, len-from_elem,
    get-from_elem,
  }

  -- Where a bit of CPU `i` stands in the bytes.
  byte_place : (i : ℕ) → (local_idx i / 8 ≡ i / 8) × (7 - local_idx i % 8 ≡ i % 8)
  unfolding local_idx
  byte_place i = (omega arith, omega arith)

  bit_of_bytes :
      (v : Vector) (i : ℕ)
      → IsWhole b v
      → bit_of (get_elem? (to_bytes v) (i / 8)) (i % 8) ≡ cpu_bit b v i
  unfolding cpu_bit
  bit_of_bytes v i h = elim (Bool-cases (ltb i (len v))) [
    | inl lt ↦ rw lt (
        let (p, q) = byte_place i in
        subst (λ k. bit_of (get_elem? (to_bytes v) k) (i % 8) ≡ get v (local_idx i)) p
          (subst (λ k. bit_of (get_elem? (to_bytes v) (local_idx i / 8)) k ≡ get v (local_idx i)) q
            (bit-to_bytes v (local_idx i) (local_idx-lt i (len v) h (ground arith)))))
    | inr ge ↦ rw ge (rw (none-to_bytes v (i / 8) (ground arith)) refl)
  ]

  start_bits : (i : ℕ) (y : Bool) → (y || cpu_bit b (from_elem 8 false) i) ≡ y
  unfolding cpu_bit
  start_bits i y =
      ground (arith, len-from_elem 8 false, get-from_elem 8 false (local_idx i), local_idx-lt i 8)

  agrees :
      (r : FsResult (List (ℕ × ℕ))) (o : Outcome (SystemdResult Vector))
      → AddsRanges b r (from_elem 8 false) o
      → Agrees r (mask_of b o)
  agrees (err e) o h = rw h refl
  agrees (ok rs) o (w, e, (whole, bits)) = (
    reverse (to_bytes w),
    rw e,
    λ i.
        rw (reverse-reverse (to_bytes w))
          (bit_of_bytes w i whole ∙ bits i ∙ start_bits i (covers rs i)),
  )

  -- For a text that is not empty, the systemd mask and the cgroup range list agree: where
  -- `parse_range` reads ranges, `convert_list_to_mask` returns a mask (it neither fails nor panics)
  -- whose bit `i`, counted from the last byte, is set exactly if a range covers `i`; where
  -- `parse_range` fails, `convert_list_to_mask` returns `InvalidArgument`.
  pub convert_list_to_mask-parse_range :
      (s : Text) → s ≢ [] → Agrees (parse_range s) (convert_list_to_mask b s)
  unfolding parse_range convert_list_to_mask
  convert_list_to_mask-parse_range [] h = absurd (h refl)
  convert_list_to_mask-parse_range (c ∷ s) h =
      agrees (ranges_of (split b',' (c ∷ s))) _
        (mark_parts-ranges_of b (split b',' (c ∷ s)) (from_elem 8 false) (rw len-from_elem refl))
