-- ===== src/Fs/Cpuset/Ranges.antt =====
-- A list of ranges that was printed is read back.
use cgroups_rs.Base.{
  ℕ, ◌≤◌, ◌≡◌, refl, ap, ◌∙◌, Bool-cases, inl, inr, if◌then◌else◌, true, false, List, [], ◌∷◌, ◌++◌,
  ok, arith, ◌==◌, All, All-append, is_empty,
}
use cgroups_rs.Text.{Text, contains_char}
use cgroups_rs.Text.Split.{split, split_by-Free, split_by-append, Free, Free-contains_char}
use cgroups_rs.Number.{IsDigit, max_u64}
use cgroups_rs.Number.Print.{print, print-IsDigit, parse_uint-print}
use cgroups_rs.Fs.Cpuset.{range_of, ranges_of, parse_range}

-- A range as the kernel prints it: "a-b", and a single number as "a".
unfoldable pub range_text : ℕ × ℕ → Text
unfolding print
range_text (a, b) = if a == b then print a else print a ++ b'-' ∷ print b

-- The list format: ranges between commas.
unfoldable pub list_text : List (ℕ × ℕ) → Text
unfolding range_text
list_text [] = []
list_text (r ∷ []) = range_text r
list_text (r ∷ q ∷ rs) = range_text r ++ b',' ∷ list_text (q ∷ rs)

abbrev pub Fits : ℕ × ℕ → Type 0
Fits r = (r.0 ≤ max_u64) × (r.1 ≤ max_u64)

-- Digits hold no character below `0`.
digits-Free : (d : ℕ) (s : Text) → d ≤ 47 → All IsDigit s → Free (λ c. c == d) s
digits-Free d [] _ _ = tt
digits-Free d (c ∷ s) le (h, hs) = (ground arith, digits-Free d s le hs)

print-Free : (d n : ℕ) → d ≤ 47 → Free (λ c. c == d) (print n)
print-Free d n le =
    let (c, s, e, h, hs) = print-IsDigit n in rw e (digits-Free d (c ∷ s) le (h, hs))

contains_char-append : (d : ℕ) (s t : Text) → contains_char d (s ++ d ∷ t) ≡ true
unfolding contains_char
contains_char-append d [] t = ground arith
contains_char-append d (c ∷ s) t = ground (arith, contains_char-append d s t)

split-dashed : (a b : ℕ) → split b'-' (print a ++ b'-' ∷ print b) ≡ print a ∷ print b ∷ []
split-dashed a b =
    rw
      (split_by-append (λ c. c == b'-') (print a) b'-' (print b) (print-Free b'-' a (omega arith))
        refl)
      (rw (split_by-Free (λ c. c == b'-') (print b) (print-Free b'-' b (omega arith))))

range_of-dashed : (a b : ℕ) → Fits (a, b) → range_of (print a ++ b'-' ∷ print b) ≡ ok (a, b)
unfolding range_of
range_of-dashed a b (ha, hb) =
    rw (contains_char-append b'-' (print a) (print b)) (
      rw (split-dashed a b)
        (rw (parse_uint-print max_u64 a ha, parse_uint-print max_u64 b hb) refl))

range_of-single : (a : ℕ) → a ≤ max_u64 → range_of (print a) ≡ ok (a, a)
unfolding range_of
range_of-single a ha =
    rw (Free-contains_char b'-' (print a) (print-Free b'-' a (omega arith)))
      (rw (parse_uint-print max_u64 a ha) refl)

range_of-range_text : (r : ℕ × ℕ) → Fits r → range_of (range_text r) ≡ ok r
unfolding range_text
range_of-range_text (a, b) h = elim (Bool-cases (a == b)) [
  | inl e ↦
      let same : a ≡ b = ground (arith, e) in
      rw e (range_of-single a h.0 ∙ ap (λ c. ok (a, c)) same)
  | inr e ↦ rw e (range_of-dashed a b h)
]

comma-Free : (r : ℕ × ℕ) → Free (λ c. c == b',') (range_text r)
unfolding range_text
comma-Free (a, b) = elim (Bool-cases (a == b)) [
  | inl e ↦ rw e (print-Free b',' a (omega arith))
  | inr e ↦ rw e (
      All-append _ (print a) _ (print-Free b',' a (omega arith))
        (refl, print-Free b',' b (omega arith)))
]

ranges_of-list_text :
    (r : ℕ × ℕ) (rs : List (ℕ × ℕ))
    → Fits r
    → All Fits rs
    → ranges_of (split b',' (list_text (r ∷ rs))) ≡ ok (r ∷ rs)
unfolding ranges_of list_text
ranges_of-list_text r [] h _ =
    rw (split_by-Free (λ c. c == b',') (range_text r) (comma-Free r)) (rw (range_of-range_text r h))
ranges_of-list_text r (q ∷ rs) h (hq, hrs) =
    rw (split_by-append (λ c. c == b',') (range_text r) b',' _ (comma-Free r) refl)
      (rw (range_of-range_text r h) (rw (ranges_of-list_text q rs hq hrs)))

append-ne-empty : (s t : Text) (c : ℕ) → is_empty (s ++ c ∷ t) ≡ false
append-ne-empty [] t c = refl
append-ne-empty (d ∷ s) t c = refl

range_text-ne-empty : (r : ℕ × ℕ) → is_empty (range_text r) ≡ false
unfolding range_text
range_text-ne-empty (a, b) = elim (Bool-cases (a == b)) [
  | inl e ↦ let (c, s, p, _, _) = print-IsDigit a in rw (e, p) refl
  | inr e ↦ rw e (append-ne-empty (print a) (print b) b'-')
]

list_text-ne-empty : (r : ℕ × ℕ) (rs : List (ℕ × ℕ)) → is_empty (list_text (r ∷ rs)) ≡ false
unfolding list_text
list_text-ne-empty r [] = range_text-ne-empty r
list_text-ne-empty r (q ∷ rs) = append-ne-empty (range_text r) _ b','

-- A list of ranges of `u64` numbers, printed in the kernel's list format (a range of one number is
-- that number alone), is read by `parse_range` as the same ranges in the same order; the empty list
-- is the empty text.
pub parse_range-list_text : (rs : List (ℕ × ℕ)) → All Fits rs → parse_range (list_text rs) ≡ ok rs
unfolding parse_range
parse_range-list_text [] _ = unfold list_text in refl
parse_range-list_text (r ∷ rs) (h, hrs) =
    rw (list_text-ne-empty r rs) (ranges_of-list_text r rs h hrs)
