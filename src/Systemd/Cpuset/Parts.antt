-- ===== src/Systemd/Cpuset/Parts.antt =====
-- The parts of a list: `convert_list_to_mask` and `parse_range` of fs/cpuset.rs read them alike.
use cgroups_rs.Base.{
  ok_or, ◌>>=◌, ℕ, ◌+◌, ◌-◌, ◌<◌, ◌≡◌, refl, sym, ap, ◌∙◌, Bool, true, false, ◌||◌, ◌&&◌, List, [],
  ◌∷◌, Option, some, ok, err, Outcome, returns, arith, ◌==◌, ltb, leb, length, Bool-cases, inl, inr,
  Option-cases,
}
use mathlib.Core.Path.{subst}
use cgroups_rs.Text.{Text, contains_char}
use cgroups_rs.Text.Split.{split, split_by-Free, contains_char-Free, one-lt-length-split}
use cgroups_rs.Number.{parse_u64}
use cgroups_rs.Fs.Error.{FsResult, new, parse_error}
use cgroups_rs.Fs.Cpuset.{range_of_pieces, range_of, ranges_of, covers}
use cgroups_rs.Systemd.Error.{SystemdResult, invalid_argument}
use cgroups_rs.Systemd.Cpuset.{local_idx, marked, grow_over, set_range, mark_pieces, mark_parts}
use cgroups_rs.Systemd.Cpuset.Vectors.{BitVec}
use cgroups_rs.Systemd.Cpuset.Grow.{
  IsWhole, cpu_bit, lt-len-grow_over, grow_over-IsWhole, cpu_bit-grow_over,
}
use cgroups_rs.Systemd.Cpuset.Bits.{set_bit-returns, cpu_bit-set, cpu_bit-set_range}

module _ (b : BitVec) where
  open b use {
    Vector, len, set, to_bytes, get, bit-to_bytes, none-to_bytes, len-set, from_elem, len-from_elem,
    get-from_elem,
  }

  -- The vector after the ranges, from the one before.
  abbrev pub Adds : List (ℕ × ℕ) → Vector → Vector → Type 0
  Adds rs v w = IsWhole b w × ((i : ℕ) → cpu_bit b w i ≡ (covers rs i || cpu_bit b v i))

  abbrev pub AddsRange : FsResult (ℕ × ℕ) → Vector → Outcome (SystemdResult Vector) → Type 0
  AddsRange (ok r) v o = (w : Vector) × (o ≡ returns (ok w)) × Adds (r ∷ []) v w
  AddsRange (err e) v o = o ≡ returns (err invalid_argument)

  abbrev pub AddsRanges : FsResult (List (ℕ × ℕ)) → Vector → Outcome (SystemdResult Vector) → Type 0
  AddsRanges (ok rs) v o = (w : Vector) × (o ≡ returns (ok w)) × Adds rs v w
  AddsRanges (err e) v o = o ≡ returns (err invalid_argument)

  covers_single : (x i : ℕ) (y : Bool) → (x == i || y) ≡ (covers ((x, x) ∷ []) i || y)
  unfolding covers
  covers_single x i y = ground arith

  mark_single :
      (x : Text) (v : Vector) (n : ℕ)
      → IsWhole b v
      → parse_u64 x ≡ some n
      → AddsRange (ok (n, n)) v (mark_pieces b (x ∷ []) v)
  unfolding mark_pieces
  mark_single x v n h e =
      let g = grow_over b (n + 1) n v in
      let whole : IsWhole b g = grow_over-IsWhole b (n + 1) n v h in
      let reach : n < len g = lt-len-grow_over b (n + 1) n v (omega arith) in
      (
        set g (local_idx n) true,
        rw (e, mark_pieces) (rw (set_bit-returns b g n whole reach)),
        (
          omega (arith, len-set g (local_idx n) true),
          λ i.
              cpu_bit-set b g n i whole reach
              ∙ ap (λ (y : Bool). n == i || y) (cpu_bit-grow_over b (n + 1) n v i h)
              ∙ covers_single n i (cpu_bit b v i),
        ),
      )

  covers_range :
      (a c i : ℕ) (y : Bool)
      → ((leb a i && ltb i (a + (c + 1 - a))) || y) ≡ (covers ((a, c) ∷ []) i || y)
  unfolding covers
  covers_range a c i y = ground arith

  empty_range : (a c : ℕ) → leb a c ≡ false → c + 1 - a ≡ 0
  empty_range a c h = ground arith

  -- The rounds of `a..=c`, none where `a` is larger.
  in_reach :
      (a c : ℕ) (g : Vector)
      → IsWhole b g
      → c < len g
      → (w : Vector) × (set_range b (c + 1 - a) a g ≡ returns w)
        × (len w ≡ len g)
        × ((i : ℕ) → cpu_bit b w i ≡ ((leb a i && ltb i (a + (c + 1 - a))) || cpu_bit b g i))
  in_reach a c g h reach = elim (Bool-cases (leb a c)) [
    | inl le ↦ cpu_bit-set_range b (c + 1 - a) a g h (ground arith)
    | inr gt ↦ rw (empty_range a c gt) (g, unfold set_range in refl, refl, λ i. ground arith)
  ]

  mark_double :
      (x y : Text) (v : Vector) (a c : ℕ)
      → IsWhole b v
      → parse_u64 x ≡ some a
      → parse_u64 y ≡ some c
      → AddsRange (ok (a, c)) v (mark_pieces b (x ∷ y ∷ []) v)
  unfolding mark_pieces
  mark_double x y v a c h ex ey =
      let g = grow_over b (c + 1) c v in
      let whole : IsWhole b g = grow_over-IsWhole b (c + 1) c v h in
      let reach : c < len g = lt-len-grow_over b (c + 1) c v (omega arith) in
      let (w, e, l, bits) = in_reach a c g whole reach in
      (
        w,
        rw (ex, ey, mark_pieces) (rw e),
        (
          omega (arith, l),
          λ i.
              bits i
              ∙ ap (λ (z : Bool). (leb a i && ltb i (a + (c + 1 - a))) || z)
                  (cpu_bit-grow_over b (c + 1) c v i h)
              ∙ covers_range a c i (cpu_bit b v i),
        ),
      )

  mark_pieces-range :
      (ps : List Text) (v : Vector)
      → IsWhole b v
      → 1 < length ps
      → AddsRange (range_of_pieces ps) v (mark_pieces b ps v)
  unfolding range_of_pieces mark_pieces
  mark_pieces-range [] v h lt = absurd (omega arith)
  mark_pieces-range (x ∷ []) v h lt = absurd (omega arith)
  mark_pieces-range (x ∷ y ∷ []) v h lt = elim (Option-cases (parse_u64 x)) [
    | inl e ↦ rw (e, mark_pieces, range_of_pieces) refl
    | inr (a, ex) ↦ elim (Option-cases (parse_u64 y)) [
      | inl e ↦ rw (ex, e, mark_pieces, range_of_pieces) refl
      | inr (c, ey) ↦
          subst (λ r. AddsRange r v (mark_pieces b (x ∷ y ∷ []) v)) {x = ok (a, c)}
            (rw (ex, ey, range_of_pieces) refl) (mark_double x y v a c h ex ey)
    ]
  ]
  mark_pieces-range (x ∷ y ∷ z ∷ ps) v h lt = refl

  abbrev number_range : Option ℕ → FsResult (ℕ × ℕ)
  number_range o = ok_or o (new parse_error) >>= λ n. ok (n, n)

  mark_number :
      (x : Text) (v : Vector)
      → IsWhole b v
      → AddsRange (number_range (parse_u64 x)) v (mark_pieces b (x ∷ []) v)
  unfolding mark_pieces
  mark_number x v h = elim (Option-cases (parse_u64 x)) [
    | inl e ↦ rw (e, mark_pieces) refl
    | inr (n, e) ↦
        subst (λ o. AddsRange (number_range o) v (mark_pieces b (x ∷ []) v)) (sym e)
          (mark_single x v n h e)
  ]

  -- One part of the list: both readers split at the dash, and take the same number or range.
  mark_part :
      (sp : Text) (v : Vector)
      → IsWhole b v
      → AddsRange (range_of sp) v (mark_pieces b (split b'-' sp) v)
  unfolding range_of
  mark_part sp v h = elim (Bool-cases (contains_char b'-' sp)) [
    | inl e ↦ rw e (mark_pieces-range (split b'-' sp) v h (one-lt-length-split b'-' sp e))
    | inr e ↦
        rw e (
          rw (split_by-Free (λ c. c == b'-') sp (contains_char-Free b'-' sp e))
            (mark_number sp v h))
  ]

  covers-cons :
      (r : ℕ × ℕ) (rs : List (ℕ × ℕ)) (i : ℕ) (y : Bool)
      → (covers rs i || (covers (r ∷ []) i || y)) ≡ (covers (r ∷ rs) i || y)
  unfolding covers
  covers-cons (a, c) rs i y = ground arith

  covers-nil : (i : ℕ) (y : Bool) → y ≡ (covers [] i || y)
  unfolding covers
  covers-nil i y = refl

  -- The rest of the list after a part that was read.
  mark_rest :
      (rest : List Text) (v : Vector) (r : ℕ × ℕ) (o : Outcome (SystemdResult Vector))
      → ((w : Vector) → IsWhole b w → AddsRanges (ranges_of rest) w (mark_parts b rest w))
      → AddsRange (ok r) v o
      → AddsRanges (ranges_of rest >>= λ rs. ok (r ∷ rs)) v (marked b o (mark_parts b rest))
  mark_rest rest v r o ih (w, e, (whole, bits)) =
      rw e (go (ranges_of rest) (mark_parts b rest w) (ih w whole))
    where
      go :
          (rr : FsResult (List (ℕ × ℕ))) (p : Outcome (SystemdResult Vector))
          → AddsRanges rr w p
          → AddsRanges (rr >>= λ rs. ok (r ∷ rs)) v p
      go (ok rs) p (u, eu, (whole', bits')) = (
        u,
        eu,
        (
          whole',
          λ i.
              bits' i
              ∙ ap (λ (y : Bool). covers rs i || y) (bits i)
              ∙ covers-cons r rs i (cpu_bit b v i),
        ),
      )
      go (err x) p h = h

  mark_step :
      (rest : List Text) (v : Vector) (r : FsResult (ℕ × ℕ)) (o : Outcome (SystemdResult Vector))
      → ((w : Vector) → IsWhole b w → AddsRanges (ranges_of rest) w (mark_parts b rest w))
      → AddsRange r v o
      → AddsRanges
          (r >>= λ q. ranges_of rest >>= λ rs. ok (q ∷ rs))
          v
          (marked b o (mark_parts b rest))
  mark_step rest v (ok r) o ih m = mark_rest rest v r o ih m
  mark_step rest v (err x) o ih m = rw m refl

  pub mark_parts-ranges_of :
      (parts : List Text) (v : Vector)
      → IsWhole b v
      → AddsRanges (ranges_of parts) v (mark_parts b parts v)
  unfolding ranges_of mark_parts
  mark_parts-ranges_of [] v h = (v, refl, (h, λ i. covers-nil i (cpu_bit b v i)))
  mark_parts-ranges_of (part ∷ rest) v h =
      mark_step rest v (range_of part) (mark_pieces b (split b'-' part) v)
        (λ w. mark_parts-ranges_of rest w) (mark_part part v h)
