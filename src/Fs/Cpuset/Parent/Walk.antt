-- ===== src/Fs/Cpuset/Parent/Walk.antt =====
-- The walk up the directories ends, and it finds the value of the nearest directory that has one.
use cgroups_rs.Base.{
  ℕ, zero, false, suc, ◌+◌, ◌<◌, ◌≡◌, ◌≢◌, refl, List, [], ◌∷◌, ◌++◌, Option, none, some, length,
  ok, arith,
}
use cgroups_rs.Text.{Text}
use cgroups_rs.Io.{bind_never}
use cgroups_rs.Fs.Host.{Host, ends_with_slash}
use cgroups_rs.Fs.Path.{parent}
use cgroups_rs.Fs.Path.Parent.{length-parent}
use cgroups_rs.Fs.Cpuset.Parent.{value_at, Found, climb, round, find_rounds, find_no_empty_parent}

-- The directories from the first one up to, and without, the last one, each written with no slash
-- at its end.
pub data Line : Text → List Text → Text → Type 0 where
  at_top : (top : Text) → Line top [] top
  below :
      (d : Text) {p : Text} {ds : List Text} {top : Text}
      → ends_with_slash d ≡ false
      → parent d ≡ some p
      → Line p ds top
      → Line d (d ∷ ds) top

module _ (h : Host) (file : Text) where
  open h use {State}

  climb_never :
      (next : Text → Found h) (v : List Text) (o : Option Text)
      → ((p : Text) → o ≡ some p → (u r : State) → next p u ≢ (ok none, r))
      → (u r : State) → climb h next v o u ≢ (ok none, r)
  climb_never next v none ih u r k = cc
  climb_never next v (some p) ih u r k = ih p refl u r k

  round_never :
      (next : Text → Found h) (dir : Text) (v : List Text) (value : Text)
      → ((p : Text) → parent dir ≡ some p → (u r : State) → next p u ≢ (ok none, r))
      → (u r : State) → round h next dir v value u ≢ (ok none, r)
  round_never next dir v [] ih u r k = climb_never next (v ++ dir ∷ []) (parent dir) ih u r k
  round_never next dir v (c ∷ value) ih u r k = cc

  find_rounds_enough :
      (n : ℕ) (dir : Text) (v : List Text) (s t : State)
      → length dir < n
      → find_rounds h n file dir v s ≢ (ok none, t)
  unfolding find_rounds
  find_rounds_enough zero dir v s t l = absurd (omega arith)
  find_rounds_enough (suc n) dir v s t l =
      bind_never (value_at h dir file) _ none
        (λ value. round_never _ dir v value (λ p e u r.
          find_rounds_enough n p (v ++ dir ∷ []) u r (omega (arith, l, length-parent dir p e))))
        s t

  -- The loop ends on every state and every path: as many rounds as the path has characters, and one
  -- more, never run out.
  pub find_no_empty_parent_terminates :
      (from : Text) (s t : State) → find_no_empty_parent h from file s ≢ (ok none, t)
  unfolding find_no_empty_parent
  find_no_empty_parent_terminates from s t =
      find_rounds_enough (length from + 1) from [] s t (omega arith)
