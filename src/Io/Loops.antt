-- ===== src/Io/Loops.antt =====
-- Loops whose bodies drop their errors, as loops over lists put together.
use mathlib.Core.Path.{fun_ext}
use cgroups_rs.Base.{
  ◌≡◌, refl, sym, ◌∙◌, ap, List, [], ◌∷◌, ◌++◌, map, Option, none, some, Result, ok, err,
}
use cgroups_rs.Io.{Io, Fault, error, panic, pure, ignore, for_each, update, ◌>>◌}

-- The items of an option.
abbrev pub items : {A : Type 0} → Option A → List A
items none = []
items (some a) = a ∷ []

abbrev pub concat_map : {A B : Type 0} → (A → List B) → List A → List B
concat_map g [] = []
concat_map g (x ∷ xs) = g x ++ concat_map g xs

module _ {S E : Type 0} where
  pub then_assoc : (l m n : Io S E (Unit {0})) → ((l >> m) >> n) ≡ (l >> (m >> n))
  then_assoc l m n = fun_ext (λ s. go (l s) s)
    where
      go :
          (r : Result (Fault E) (Unit {0}) × S) (s : S)
          → (((λ _. r) >> m) >> n) s ≡ ((λ _. r) >> (m >> n)) s
      go (ok _, u) s = refl
      go (err e, u) s = refl

  pub then_pure : (m : Io S E (Unit {0})) → (m >> pure tt) ≡ m
  then_pure m = fun_ext (λ s. go (m s) s)
    where
      go : (r : Result (Fault E) (Unit {0}) × S) (s : S) → ((λ _. r) >> pure tt) s ≡ r
      go (ok _, u) s = refl
      go (err e, u) s = refl

  pub ignore_then : (m n : Io S E (Unit {0})) → ignore (ignore m >> n) ≡ (ignore m >> ignore n)
  ignore_then m n = fun_ext (λ s. go (m s) s)
    where
      go :
          (r : Result (Fault E) (Unit {0}) × S) (s : S)
          → ignore (ignore (λ _. r) >> n) s ≡ (ignore (λ _. r) >> ignore n) s
      go (ok _, u) s = refl
      go (err (error e), u) s = refl
      go (err panic, u) s = refl

module _ {S E A : Type 0} where
  pub for_each-append :
      (f : A → Io S E (Unit {0})) (xs ys : List A)
      → for_each f (xs ++ ys) ≡ (for_each f xs >> for_each f ys)
  unfolding for_each
  for_each-append f [] ys = refl
  for_each-append f (x ∷ xs) ys =
      rw (for_each-append f xs ys) (sym (then_assoc (ignore (f x)) (for_each f xs) (for_each f ys)))

  pub ignore-for_each :
      (f : A → Io S E (Unit {0})) (xs : List A) → ignore (for_each f xs) ≡ for_each f xs
  unfolding for_each
  ignore-for_each f [] = refl
  ignore-for_each f (x ∷ xs) =
      ignore_then (f x) (for_each f xs) ∙ ap (λ m. ignore (f x) >> m) (ignore-for_each f xs)

  pub update-items : (f : A → Io S E (Unit {0})) (o : Option A) → update f o ≡ for_each f (items o)
  unfolding for_each
  update-items f none = refl
  update-items f (some a) = sym (then_pure (ignore (f a)))

module _ {S E A B : Type 0} where
  pub for_each-map :
      (f : B → Io S E (Unit {0})) (g : A → B) (xs : List A)
      → for_each f (map g xs) ≡ for_each (λ x. f (g x)) xs
  unfolding for_each
  for_each-map f g [] = refl
  for_each-map f g (x ∷ xs) = ap (λ m. ignore (f (g x)) >> m) (for_each-map f g xs)

  -- A loop in a loop is one loop.
  pub for_each-concat_map :
      (f : B → Io S E (Unit {0})) (g : A → List B) (xs : List A)
      → for_each f (concat_map g xs) ≡ for_each (λ x. for_each f (g x)) xs
  unfolding for_each
  for_each-concat_map f g [] = refl
  for_each-concat_map f g (x ∷ xs) =
      for_each-append f (g x) (concat_map g xs)
      ∙ ap (λ m. for_each f (g x) >> m) (for_each-concat_map f g xs)
      ∙ ap (λ m. m >> for_each (λ y. for_each f (g y)) xs) (sym (ignore-for_each f (g x)))
