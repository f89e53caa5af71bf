-- ===== src/Systemd/Client/Steps.antt =====
-- What stays true of a client through all that is done with it.
use cgroups_rs.Base.{
  ℕ, ◌≡◌, refl, sym, ◌∙◌, Bool, true, false, Result, ok, err, inl, inr, Bool-cases, if◌then◌else◌,
}
use cgroups_rs.Text.{Text, text_eq}
use cgroups_rs.Dict.{Dict, get, insert}
use cgroups_rs.Io.{Fault, ◌>>=◌, pure, lift}
use cgroups_rs.Systemd.Props.{ZbusValues, default_cgroup, build}
use cgroups_rs.Systemd.Slice.{is_slice_unit}
use cgroups_rs.Systemd.Dbus.{Bus, MoreValues}
use cgroups_rs.Systemd.Dbus.Error.{Error}
use cgroups_rs.Systemd.Client.{
  SystemdClient, Client, pids_key, with_pid, set_props, on_bus, exists, set_pid_prop, start, stop,
  set_properties, freeze, thaw, add_process,
}
use cgroups_rs.Systemd.Client.Properties.{
  IsKeyed, IsKeyed-insert, IsKeyed-merge, pid_value, put, with_pid-insert, set_properties-client,
}

pub IsKeyed-default_cgroup :
    (z : ZbusValues) (unified : Bool) (slice unit : Text)
    → IsKeyed (build z unified (default_cgroup slice unit))
unfolding build default_cgroup get text_eq
IsKeyed-default_cgroup z true slice unit = elim (Bool-cases (is_slice_unit unit)) [
  | inl e ↦ rw e (refl, (refl, (refl, (refl, (refl, (refl, (refl, tt)))))))
  | inr e ↦ rw e (refl, (refl, (refl, (refl, (refl, (refl, (refl, (refl, tt))))))))
]
IsKeyed-default_cgroup z false slice unit = elim (Bool-cases (is_slice_unit unit)) [
  | inl e ↦ rw e (refl, (refl, (refl, (refl, (refl, (refl, (refl, tt)))))))
  | inr e ↦ rw e (refl, (refl, (refl, (refl, (refl, (refl, (refl, (refl, tt))))))))
]

module _ (z : ZbusValues) (more : MoreValues z) {S : Type 0} (bus : Bus S z) where
  open z use {Value}

  pub data Operation : Type 0 where
    sets_pid_prop : ℕ → Operation
    starts stops freezes thaws : Operation
    sets_properties : Dict Value → Operation
    adds_process : ℕ → Text → Operation

  unfoldable pub run : Operation → Client z more bus (Unit {0})
  unfolding set_pid_prop start stop freeze thaw set_properties add_process
  run (sets_pid_prop pid) = set_pid_prop z more bus pid
  run starts = start z more bus
  run stops = stop z more bus
  run freezes = freeze z more bus
  run thaws = thaw z more bus
  run (sets_properties new) = set_properties z more bus new
  run (adds_process pid subcgroup) = add_process z more bus pid subcgroup

  -- What a caller can make of a client and its bus, whatever an operation returns.
  pub data Reaches : SystemdClient z × S → SystemdClient z × S → Type 0 where
    here : (p : SystemdClient z × S) → Reaches p p
    after :
        (op : Operation) {p q r : SystemdClient z × S}
        → Reaches p q
        → (run op q).1 ≡ r
        → Reaches p r

  abbrev Kept : Text → SystemdClient z → Type 0
  Kept unit c = (c.unit ≡ unit) × IsKeyed c.props

  set_pid_prop-Kept :
      (pid : ℕ) (unit : Text) (c : SystemdClient z) (s : S)
      → Kept unit c
      → Kept unit (set_pid_prop z more bus pid (c, s)).1.0
  unfolding set_pid_prop
  set_pid_prop-Kept pid unit c s (e, keyed) = go (exists z more bus c s)
    where
      stored :
          (r : Result Error (Dict Value))
          → ((props : Dict Value) → r ≡ ok props → IsKeyed props)
          → (u : S) → Kept unit ((lift r >>= λ props. set_props z more bus props) (c, u)).1.0
      stored (ok props) k u = (e, k props refl)
      stored (err f) k u = (e, keyed)

      put_keyed :
          (r : Result Error Value) (props : Dict Value)
          → put z more bus c.props r ≡ ok props
          → IsKeyed props
      put_keyed (ok w) props k =
          let same : insert pids_key w c.props ≡ props = cc in
          rw (← same) (IsKeyed-insert pids_key w c.props keyed)
      put_keyed (err f) props k = cc

      go :
          (r : Result (Fault Error) Bool × S)
          → Kept unit
              ((on_bus z more bus (λ _ _. r) >>= λ there. if there then pure tt else (λ (c, s).
                  (lift (with_pid z more bus pid c.props) >>= λ props. set_props z more bus props)
                    (c, s)))
                (c, s)).1.0
      go (err f, u) = (e, keyed)
      go (ok true, u) = (e, keyed)
      go (ok false, u) =
          stored (with_pid z more bus pid c.props)
            (λ props k.
              put_keyed (pid_value z more bus pid (get pids_key c.props)) props
                (sym (with_pid-insert z more bus pid c.props) ∙ k))
            u

  run-Kept :
      (op : Operation) (unit : Text) (c : SystemdClient z) (s : S)
      → Kept unit c
      → Kept unit (run op (c, s)).1.0
  unfolding run start stop freeze thaw add_process
  run-Kept (sets_pid_prop pid) unit c s k = set_pid_prop-Kept pid unit c s k
  run-Kept starts unit c s k = k
  run-Kept stops unit c s k = k
  run-Kept freezes unit c s k = k
  run-Kept thaws unit c s k = k
  run-Kept (sets_properties new) unit c s (e, keyed) =
      rw (set_properties-client z more bus new c s) (e, IsKeyed-merge z more bus new c.props keyed)
  run-Kept (adds_process pid subcgroup) unit c s k = k

  Reaches-invariant :
      (unit : Text) {p q : SystemdClient z × S} → Kept unit p.0 → Reaches p q → Kept unit q.0
  Reaches-invariant unit k (here _) = k
  Reaches-invariant unit k (after op {q} way e) =
      rw (← e) (run-Kept op unit q.0 q.1 (Reaches-invariant unit k way))

  -- A client of a new unit never changes its unit, and never has a property twice, whatever is done
  -- with it, in whatever order and with whatever outcome.
  pub Reaches-IsKeyed :
      (unified : Bool) (slice unit : Text) (s : S) (c : SystemdClient z) (t : S)
      → Reaches
          (record { unit = unit; props = build z unified (default_cgroup slice unit) }, s)
          (c, t)
      → (c.unit ≡ unit) × IsKeyed c.props
  Reaches-IsKeyed unified slice unit s c t way =
      Reaches-invariant unit (refl, IsKeyed-default_cgroup z unified slice unit) way
