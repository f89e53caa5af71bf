-- ===== src/Io/Answers.antt =====
-- Code that leaves the state as it is, at one state: whether it succeeds or fails, or with what
-- value it succeeds.
use cgroups_rs.Base.{◌≡◌, refl, ◌⊎◌, inl, inr, ok, err}
use cgroups_rs.Io.{Io, error, default_to, map_err, ◌>>=◌}

module _ {S E A : Type 0} where
  -- A value or an error, and the state is the same.
  abbrev pub Answers : Io S E A → S → Type 0
  Answers m s = ((a : A) × (m s ≡ (ok a, s))) ⊎ ((e : E) × (m s ≡ (err (error e), s)))

  -- A value with a property, and the state is the same.
  abbrev pub Yields : Io S E A → S → (A → Type 0) → Type 0
  Yields m s P = (a : A) × (m s ≡ (ok a, s)) × P a

  pub Answers-default_to :
      (d : A) (m : Io S E A) (s : S) → Answers m s → Yields (default_to d m) s (λ a. Unit)
  Answers-default_to d m s (inl (a, e)) = (a, rw e refl, tt)
  Answers-default_to d m s (inr (f, e)) = (d, rw e refl, tt)

module _ {S E F A : Type 0} where
  pub Answers-map_err : (f : E → F) (m : Io S E A) (s : S) → Answers m s → Answers (map_err f m) s
  Answers-map_err f m s (inl (a, e)) = inl (a, rw e refl)
  Answers-map_err f m s (inr (g, e)) = inr (f g, rw e refl)

  pub Yields-map_err :
      (f : E → F) (m : Io S E A) (s : S) (P : A → Type 0) → Yields m s P → Yields (map_err f m) s P
  Yields-map_err f m s P (a, e, p) = (a, rw e refl, p)

module _ {S E A B : Type 0} where
  pub Answers-bind :
      (m : Io S E A) (f : A → Io S E B) (s : S)
      → Answers m s
      → ((a : A) → m s ≡ (ok a, s) → Answers (f a) s)
      → Answers (m >>= f) s
  Answers-bind m f s (inl (a, e)) k = elim (k a e) [
    | inl (b, g) ↦ inl (b, rw e g)
    | inr (b, g) ↦ inr (b, rw e g)
  ]
  Answers-bind m f s (inr (g, e)) k = inr (g, rw e refl)

  pub Yields-bind :
      (m : Io S E A) (f : A → Io S E B) (s : S) (P : A → Type 0) (Q : B → Type 0)
      → Yields m s P
      → ((a : A) → P a → Yields (f a) s Q)
      → Yields (m >>= f) s Q
  Yields-bind m f s P Q (a, e, p) k = let (b, g, q) = k a p in (b, rw e g, q)
