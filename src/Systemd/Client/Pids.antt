-- ===== src/Systemd/Client/Pids.antt =====
-- A second process for a unit that is not there yet.
use cgroups_rs.Base.{ℕ, ◌%◌, ◌^◌, ◌≡◌, refl, false, List, [], ◌∷◌, none, ok, err}
use cgroups_rs.Dict.{get, insert, get-insert}
use cgroups_rs.Io.{error}
use cgroups_rs.Systemd.Props.{ZbusValues}
use cgroups_rs.Systemd.Dbus.{Bus, MoreValues, refused}
use cgroups_rs.Systemd.Dbus.Error.{Error, invalid_properties}
use cgroups_rs.Systemd.Client.{SystemdClient, pids_key, exists, set_pid_prop}
use cgroups_rs.Systemd.Client.Properties.{with_pid-insert}

module _ (z : ZbusValues) (more : MoreValues z) {S : Type 0} (bus : Bus S z) where
  open z use {array}

  abbrev pub with_one : ℕ → SystemdClient z → SystemdClient z
  with_one p c = record c { props = insert pids_key (array (p % 2 ^ 32 ∷ [])) c.props }

  -- An array of 32-bit numbers takes no `u64`, so while the unit is not there, the first process is
  -- taken and the second is refused.
  pub set_pid_prop-again :
      (p q : ℕ) (c : SystemdClient z) (s t u : S)
      → ((n : ℕ) (ns : List ℕ) → more.append_uint64 n (array ns) ≡ refused)
      → get pids_key c.props ≡ none
      → exists z more bus {E = Error} c s ≡ (ok false, t)
      → exists z more bus {E = Error} (with_one p c) t ≡ (ok false, u)
      → (set_pid_prop z more bus p (c, s) ≡ (ok tt, (with_one p c, t)))
        × (set_pid_prop z more bus q (with_one p c, t)
            ≡ (err (error invalid_properties), (with_one p c, u)))
  unfolding set_pid_prop
  set_pid_prop-again p q c s t u refuses free gone still = (
    rw (gone, with_pid-insert z more bus p c.props, free) refl,
    rw
        (
          still,
          with_pid-insert z more bus q (with_one p c).props,
          get-insert pids_key pids_key (array (p % 2 ^ 32 ∷ [])) c.props,
          refuses q (p % 2 ^ 32 ∷ []),
        )
        refl,
  )
