-- ===== src/Base/Sorted.antt =====
-- `sort` and `dedup` of a vector of numbers.
use Prim.Native.Nat.{ℕ, ◌≤◌, ◌<◌}
use mathlib.Core.Path.{◌≡◌, refl}
use mathlib.Core.Bool.{Bool, false, ◌||◌}
use mathlib.Core.List.{List, [], ◌∷◌}
use mathlib.Core.Logic.{inl, inr}
use native.Mathlib.Omega.{arith}
use cgroups_rs.Base.Tests.{leb, ◌==◌, if◌then◌else◌, Bool-cases}

unfoldable pub insert_sorted : ℕ → List ℕ → List ℕ
insert_sorted x [] = x ∷ []
insert_sorted x (y ∷ ys) = let rest = insert_sorted x ys in if leb x y then x ∷ y ∷ ys else y ∷ rest

unfoldable pub sort : List ℕ → List ℕ
unfolding insert_sorted
sort [] = []
sort (x ∷ xs) = insert_sorted x (sort xs)

-- What is kept behind an item.
unfoldable pub dedup_from : ℕ → List ℕ → List ℕ
dedup_from x [] = []
dedup_from x (y ∷ ys) =
    let same = dedup_from x ys in let other = dedup_from y ys in if x == y then same else y ∷ other

unfoldable pub dedup : List ℕ → List ℕ
unfolding dedup_from
dedup [] = []
dedup (x ∷ xs) = x ∷ dedup_from x xs

unfoldable pub contains : ℕ → List ℕ → Bool
contains p [] = false
contains p (x ∷ xs) = p == x || contains p xs

-- Never falling, from a number on.
abbrev From : ℕ → List ℕ → Type 0
From n [] = Unit
From n (x ∷ xs) = (n ≤ x) × From x xs

-- Always rising, from above a number on.
abbrev pub Above : ℕ → List ℕ → Type 0
Above n [] = Unit
Above n (x ∷ xs) = (n < x) × Above x xs

abbrev pub IsAscending : List ℕ → Type 0
IsAscending [] = Unit
IsAscending (x ∷ xs) = Above x xs

insert_sorted-From : (n x : ℕ) (xs : List ℕ) → n ≤ x → From n xs → From n (insert_sorted x xs)
unfolding insert_sorted
insert_sorted-From n x [] h _ = (h, tt)
insert_sorted-From n x (y ∷ ys) h (k, up) = elim (Bool-cases (leb x y)) [
  | inl e ↦ rw e (h, (ground arith, up))
  | inr e ↦ rw e (k, insert_sorted-From y x ys (ground arith) up)
]

sort-From : (xs : List ℕ) → From 0 (sort xs)
unfolding sort
sort-From [] = tt
sort-From (x ∷ xs) = insert_sorted-From 0 x (sort xs) (omega arith) (sort-From xs)

From-le : (n m : ℕ) (xs : List ℕ) → n ≤ m → From m xs → From n xs
From-le n m [] h _ = tt
From-le n m (x ∷ xs) h (k, up) = (omega arith, up)

dedup_from-Above : (x : ℕ) (xs : List ℕ) → From x xs → Above x (dedup_from x xs)
unfolding dedup_from
dedup_from-Above x [] _ = tt
dedup_from-Above x (y ∷ ys) (h, up) = elim (Bool-cases (x == y)) [
  | inl e ↦ rw e (dedup_from-Above x ys (From-le x y ys h up))
  | inr e ↦ rw e (ground arith, dedup_from-Above y ys up)
]

dedup-IsAscending : (n : ℕ) (xs : List ℕ) → From n xs → IsAscending (dedup xs)
unfolding dedup
dedup-IsAscending n [] _ = tt
dedup-IsAscending n (x ∷ xs) (h, up) = dedup_from-Above x xs up

-- Sorted and with no item twice.
pub dedup-sort-IsAscending : (xs : List ℕ) → IsAscending (dedup (sort xs))
dedup-sort-IsAscending xs = dedup-IsAscending 0 (sort xs) (sort-From xs)

contains-insert_sorted :
    (p x : ℕ) (xs : List ℕ) → contains p (insert_sorted x xs) ≡ (p == x || contains p xs)
unfolding contains insert_sorted
contains-insert_sorted p x [] = refl
contains-insert_sorted p x (y ∷ ys) = ground (arith, contains-insert_sorted p x ys)

contains-sort : (p : ℕ) (xs : List ℕ) → contains p (sort xs) ≡ contains p xs
unfolding contains sort
contains-sort p [] = refl
contains-sort p (x ∷ xs) = rw (contains-insert_sorted p x (sort xs)) (rw (contains-sort p xs) refl)

contains-dedup_from :
    (p x : ℕ) (xs : List ℕ) → (p == x || contains p (dedup_from x xs)) ≡ (p == x || contains p xs)
unfolding contains dedup_from
contains-dedup_from p x [] = refl
contains-dedup_from p x (y ∷ ys) =
    ground (arith, contains-dedup_from p x ys, contains-dedup_from p y ys)

contains-dedup : (p : ℕ) (xs : List ℕ) → contains p (dedup xs) ≡ contains p xs
unfolding contains dedup
contains-dedup p [] = refl
contains-dedup p (x ∷ xs) = contains-dedup_from p x xs

pub contains-dedup-sort : (p : ℕ) (xs : List ℕ) → contains p (dedup (sort xs)) ≡ contains p xs
contains-dedup-sort p xs = rw (contains-dedup p (sort xs)) (contains-sort p xs)
