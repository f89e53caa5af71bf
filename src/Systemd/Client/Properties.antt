-- ===== src/Systemd/Client/Properties.antt =====
-- The properties that the client keeps for its unit, as a map from keys to values.
use cgroups_rs.Base.{
  ℕ, ◌%◌, ◌^◌, ◌≡◌, refl, sym, ◌∙◌, true, false, [], ◌∷◌, Option, none, some, Result, ok, err, inl,
  inr, Bool-cases, ap, if◌then◌else◌, arith,
}
use cgroups_rs.Text.{Text, text_eq, text_eq_iff}
use cgroups_rs.Dict.{Dict, get, insert, get-insert}
use cgroups_rs.Systemd.Props.{ZbusValues}
use cgroups_rs.Systemd.Dbus.{Bus, MoreValues, Appended, appended, refused, not_array}
use cgroups_rs.Systemd.Dbus.Error.{Error, invalid_properties}
use cgroups_rs.Systemd.Client.{
  SystemdClient, pids_key, with_pid, with_appended, behind, merged, merge, store, set_properties,
}

-- No key is there twice.
abbrev pub IsKeyed : {V : Type 0} → Dict V → Type 0
IsKeyed [] = Unit
IsKeyed ((k, v) ∷ m) = (get k m ≡ none) × IsKeyed m

-- The value of a key behind a list of changes: that of the last change of the key, or the old one.
abbrev pub changed : {V : Type 0} → Text → Dict V → Option V → Option V
changed k [] old = old
changed k ((j, v) ∷ new) old = changed k new (if text_eq j k then some v else old)

module _ {V : Type 0} where
  pub IsKeyed-insert : (k : Text) (v : V) (m : Dict V) → IsKeyed m → IsKeyed (insert k v m)
  unfolding insert get
  IsKeyed-insert k v [] u = (refl, tt)
  IsKeyed-insert k v ((j, w) ∷ m) (new, u) = elim (Bool-cases (text_eq j k)) [
    | inl e ↦ rw (e, sym ((text_eq_iff j k).0 e)) (new, u)
    | inr e ↦ rw e (
      get-insert k j v m ∙ ground (arith, text_eq_iff j k, text_eq_iff k j, e, new),
      IsKeyed-insert k v m u,
    )
  ]

module _ (z : ZbusValues) (more : MoreValues z) {S : Type 0} (bus : Bus S z) where
  open z use {Value, array}

  -- What is left of the client, whether the bus takes the properties or not.
  pub set_properties-client :
      (new : Dict Value) (c : SystemdClient z) (s : S)
      → (set_properties z more bus new (c, s)).1.0
        ≡ record c { props = (merge z more bus new c.props).1 }
  unfolding set_properties
  set_properties-client new c s = go (merge z more bus new c.props)
    where
      go :
          (r : Option (Unit {0}) × Dict Value)
          → (store z more bus new r (c, s)).1.0 ≡ record c { props = r.1 }
      go (none, props) = refl
      go (some _, props) = refl

  module _ (copies : (v : Value) → more.try_clone v ≡ some v) where
    get-merge :
        (k : Text) (new props : Dict Value)
        → get k (merge z more bus new props).1 ≡ changed k new (get k props)
    unfolding merge
    get-merge k [] props = refl
    get-merge k ((j, v) ∷ new) props =
        rw (merge, copies v) (get-merge k new (insert j v props) ∙ rw (get-insert j k v props) refl)

    -- Where every value can be copied (`try_clone` gives the value itself), and whatever the bus
    -- answers: the client keeps its unit, and a key has the last value that was set for it, or the
    -- value it had.
    pub set_properties-get :
        (new : Dict Value) (c : SystemdClient z) (s : S)
        → ((set_properties z more bus new (c, s)).1.0.unit ≡ c.unit)
          × ((k : Text)
              → get k (set_properties z more bus new (c, s)).1.0.props
                ≡ changed k new (get k c.props))
    set_properties-get new c s =
        rw (set_properties-client new c s) (refl, λ k. get-merge k new c.props)

  pub IsKeyed-merge :
      (new props : Dict Value) → IsKeyed props → IsKeyed (merge z more bus new props).1
  unfolding merge
  IsKeyed-merge [] props u = u
  IsKeyed-merge ((j, v) ∷ new) props u =
      go (more.try_clone v) (λ w. IsKeyed-merge new (insert j w props) (IsKeyed-insert j w props u))
    where
      go :
          (o : Option Value)
          → ((w : Value) → IsKeyed (merge z more bus new (insert j w props)).1)
          → IsKeyed (merged z more bus (λ w. merge z more bus new (insert j w props)) props o).1
      go none ih = u
      go (some w) ih = ih w

  -- The value of the property of processes with one more, from the value so far.
  abbrev pub taken : Appended Value → Result Error Value
  taken (appended w) = ok w
  taken refused = err invalid_properties
  taken not_array = err invalid_properties

  abbrev pub pid_value : ℕ → Option Value → Result Error Value
  pid_value pid none = ok (array (pid % 2 ^ 32 ∷ []))
  pid_value pid (some v) = taken (more.append_uint64 pid v)

  abbrev pub put : Dict Value → Result Error Value → Result Error (Dict Value)
  put props (ok w) = ok (insert pids_key w props)
  put props (err e) = err e

  pub with_pid-insert :
      (pid : ℕ) (props : Dict Value)
      → with_pid z more bus pid props ≡ put props (pid_value pid (get pids_key props))
  unfolding with_pid get insert
  with_pid-insert pid [] = refl
  with_pid-insert pid ((j, v) ∷ props) = elim (Bool-cases (text_eq j pids_key)) [
    | inl e ↦ rw (with_pid, e) (found e (more.append_uint64 pid v))
    | inr e ↦
        rw (with_pid, e, with_pid-insert pid props) (later e (pid_value pid (get pids_key props)))
  ]
    where
      found :
          text_eq j pids_key ≡ true
          → (a : Appended Value)
          → with_appended z more bus j props a ≡ put ((j, v) ∷ props) (taken a)
      found e (appended w) = rw e (ap (λ k. ok ((k, w) ∷ props)) ((text_eq_iff j pids_key).0 e))
      found e refused = refl
      found e not_array = refl

      later :
          text_eq j pids_key ≡ false
          → (r : Result Error Value) → behind z more bus j v (put props r) ≡ put ((j, v) ∷ props) r
      later e (ok w) = rw e refl
      later e (err f) = refl
