-- ===== src/Base/Results.antt =====
-- `Result` of Rust, with `?` as the bind, and the outcome of code that may panic.
use mathlib.Core.Option.{Option, none, some}
use mathlib.Core.Path.{◌≡◌, refl, sym}

pub data Result {ℓ} (E A : Type ℓ) : Type ℓ where
  ok : A → Result E A
  err : E → Result E A

infixl 5 ◌>>=◌ ◌>>◌
abbrev pub ◌>>=◌ {ℓ} : {E A B : Type ℓ} → Result E A → (A → Result E B) → Result E B
ok a >>= f = f a
err e >>= f = err e

abbrev pub ◌>>◌ {ℓ} : {E A B : Type ℓ} → Result E A → Result E B → Result E B
m >> k = m >>= λ _. k

-- `ok_or`
abbrev pub ok_or {ℓ} : {E A : Type ℓ} → Option A → E → Result E A
ok_or none e = err e
ok_or (some a) e = ok a

-- `unwrap_or`
abbrev pub unwrap_or {ℓ} : {A : Type ℓ} → Option A → A → A
unwrap_or none d = d
unwrap_or (some a) d = a

-- `Result::ok`
abbrev pub to_option {ℓ} : {E A : Type ℓ} → Result E A → Option A
to_option (ok a) = some a
to_option (err e) = none

-- Code that may panic (`unwrap`, an index out of range).
pub data Outcome {ℓ} (A : Type ℓ) : Type ℓ where
  returns : A → Outcome A
  panics : Outcome A

-- `unwrap`
abbrev pub unwrap {ℓ} : {A : Type ℓ} → Option A → Outcome A
unwrap none = panics
unwrap (some a) = returns a

-- The rest of a function after a call that may panic.
abbrev pub then_returns {ℓ} : {A B : Type ℓ} → Outcome A → (A → Outcome B) → Outcome B
then_returns (returns a) f = f a
then_returns panics f = panics

-- What a successful `?` took: the value in front of it, and the rest of the function at that value.
pub taken {ℓ} :
    {E A B : Type ℓ} {b : B} (rest : A → Result E B) (first : Result E A)
    → ok b ≡ (first >>= rest)
    → (a : A) × (rest a ≡ ok b) × (first ≡ ok a)
taken rest (err e) went = cc
taken rest (ok a) went = (a, sym went, refl)

pub ok_or-eq-ok {ℓ} : {E A : Type ℓ} (o : Option A) (e : E) {a : A} → ok_or o e ≡ ok a → o ≡ some a
ok_or-eq-ok none e h = cc
ok_or-eq-ok (some b) e h = cc
