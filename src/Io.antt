-- ===== src/Io.antt =====
-- Code that works on the operating system's state and may fail. What was done before an error
-- stays done, so the state comes back beside the error too. A panic is a failure that no handler
-- of errors sees.
pub mod Answers
pub mod Loops
use cgroups_rs.Base.{
  Result, ok, err, List, [], ◌∷◌, Outcome, returns, panics, Option, none, some, ◌≡◌, ◌≢◌, refl,
  ◌++◌,
}

pub data Fault (E : Type 0) : Type 0 where
  error : E → Fault E
  panic : Fault E

abbrev pub Io : Type 0 → Type 0 → Type 0 → Type 0
Io S E A = S → Result (Fault E) A × S

abbrev lifted : {E A : Type 0} → Result E A → Result (Fault E) A
lifted (ok a) = ok a
lifted (err e) = err (error e)

abbrev outcome : {E A : Type 0} → Outcome A → Result (Fault E) A
outcome (returns a) = ok a
outcome panics = err panic

module _ {S E A : Type 0} where
  -- `Ok(a)`
  abbrev pub pure : A → Io S E A
  pure a s = (ok a, s)

  -- `Err(e)`
  abbrev pub raise : E → Io S E A
  raise e s = (err (error e), s)

  -- A result that needs no state.
  abbrev pub lift : Result E A → Io S E A
  lift r s = (lifted r, s)

  -- A value that needs no state, or a panic.
  abbrev pub lift_outcome : Outcome A → Io S E A
  lift_outcome o s = (outcome o, s)

module _ {S E F A : Type 0} where
  abbrev pub handled : (E → Io S F A) → Result (Fault E) A → Io S F A
  handled h (ok a) s = (ok a, s)
  handled h (err (error e)) s = h e s
  handled h (err panic) s = (err panic, s)

  -- `or_else(h)`
  abbrev pub or_else : Io S E A → (E → Io S F A) → Io S F A
  or_else m h s = let (r, after) = m s in handled h r after

module _ {S E A : Type 0} where
  -- `unwrap_or(d)`, `unwrap_or_default()`
  abbrev pub default_to : A → Io S E A → Io S E A
  default_to d m = or_else m (λ e. pure d)

module _ {S E F A : Type 0} where
  -- `map_err(f)`
  abbrev pub map_err : (E → F) → Io S E A → Io S F A
  map_err f m = or_else m (λ e. raise (f e))

module _ {S E A B : Type 0} where
  abbrev pub proceed : (A → Io S E B) → Result (Fault E) A → Io S E B
  proceed f (err e) s = (err e, s)
  proceed f (ok a) s = f a s

  infixl 5 ◌>>=◌ ◌>>◌
  -- `m?`, `m.and_then(f)`
  abbrev pub ◌>>=◌ : Io S E A → (A → Io S E B) → Io S E B
  ◌>>=◌ m f s = let (r, after) = m s in proceed f r after

  abbrev pub ◌>>◌ : Io S E A → Io S E B → Io S E B
  m >> n = m >>= λ _. n

module _ {S E A B : Type 0} where
  -- A value that the rest of a program never gives is none that the whole gives.
  pub bind_never :
      (m : Io S E A) (f : A → Io S E B) (b : B)
      → ((a : A) (u t : S) → f a u ≢ (ok b, t))
      → (s t : S) → (m >>= f) s ≢ (ok b, t)
  bind_never m f b never s t = go (m s)
    where
      go : (r : Result (Fault E) A × S) → proceed f r.0 r.1 ≢ (ok b, t)
      go (err e, u) k = cc
      go (ok a, u) k = never a u t k

module _ {S E A B : Type 0} where
  -- A run that ends with a value known before gives that value.
  pub pure_after :
      (m : Io S E A) (a : B) {b : B} (s : S) {t : S} → (m >> pure a) s ≡ (ok b, t) → a ≡ b
  pure_after m a {b} s {t} = go (m s)
    where
      go : (r : Result (Fault E) A × S) → proceed (λ _. pure a) r.0 r.1 ≡ (ok b, t) → a ≡ b
      go (err e, u) k = cc
      go (ok x, u) k = cc

module _ {S E : Type 0} where
  -- `let _ = m;`: an error is dropped, the effects stay.
  abbrev pub ignore : Io S E (Unit {0}) → Io S E (Unit {0})
  ignore m = or_else m (λ e. pure tt)

module _ {S E A : Type 0} where
  -- `try_for_each`: in order, up to the first error.
  unfoldable pub try_for_each : (A → Io S E (Unit {0})) → List A → Io S E (Unit {0})
  try_for_each f [] = pure tt
  try_for_each f (x ∷ xs) = f x >> try_for_each f xs

  -- A `for` loop whose body drops its errors.
  unfoldable pub for_each : (A → Io S E (Unit {0})) → List A → Io S E (Unit {0})
  for_each f [] = pure tt
  for_each f (x ∷ xs) = ignore (f x) >> for_each f xs

  -- `if let Some(v) = o { f(v)? }`
  abbrev pub when_some : Option A → (A → Io S E (Unit {0})) → Io S E (Unit {0})
  when_some none f = pure tt
  when_some (some a) f = f a

  -- `update!(self, f, o)`
  abbrev pub update : (A → Io S E (Unit {0})) → Option A → Io S E (Unit {0})
  update f none = pure tt
  update f (some a) = ignore (f a)

module _ {S E A : Type 0} where
  pub try_for_each-append :
      (f : A → Io S E (Unit {0})) (xs ys : List A) (s : S)
      → try_for_each f (xs ++ ys) s ≡ (try_for_each f xs >> try_for_each f ys) s
  unfolding try_for_each
  try_for_each-append f [] ys s = refl
  try_for_each-append f (x ∷ xs) ys s = go (f x s) (try_for_each-append f xs ys)
    where
      go :
          (r : Result (Fault E) (Unit {0}) × S)
          → ((u : S) → try_for_each f (xs ++ ys) u ≡ (try_for_each f xs >> try_for_each f ys) u)
          → proceed (λ _. try_for_each f (xs ++ ys)) r.0 r.1
            ≡ proceed
                (λ _. try_for_each f ys)
                (proceed (λ _. try_for_each f xs) r.0 r.1).0
                (proceed (λ _. try_for_each f xs) r.0 r.1).1
      go (err e, u) ih = refl
      go (ok _, u) ih = ih u
