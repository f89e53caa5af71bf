-- ===== src/Systemd/Client/Jobs.antt =====
-- The start of a unit: which signal ends the wait for its job.
use cgroups_rs.Base.{
  ◌≡◌, refl, true, false, List, [], ◌∷◌, ◌++◌, Result, ok, err, All, if◌then◌else◌,
}
use cgroups_rs.Text.{Text, codes, text_eq, text_eq_refl}
use cgroups_rs.Io.{lift}
use cgroups_rs.Systemd.Props.{ZbusValues}
use cgroups_rs.Systemd.Dbus.{
  Bus, MoreValues, Signal, job_removed, unreadable, Ending, stream_closed, timed_out,
}
use cgroups_rs.Systemd.Dbus.Error.{
  Error, job_failed, job_wait_timed_out, job_removed_signal_stream_closed,
}
use cgroups_rs.Systemd.Client.{SystemdClient, wait_for_job, has_pids, replace_mode, start}

-- Signals about other jobs.
abbrev IsOther : Text → Signal → Type 0
IsOther job (job_removed path result) = text_eq path job ≡ false
IsOther job (unreadable e) = ⊥

abbrev pub of_result : Text → Result Error (Unit {0})
of_result result = if text_eq result (codes "done") then ok tt else err (job_failed result)

abbrev pub of_ending : Text → Text → Ending → Result Error (Unit {0})
of_ending unit job stream_closed = err job_removed_signal_stream_closed
of_ending unit job timed_out = err (job_wait_timed_out unit job)

wait_for_job-own :
    (unit job result : Text) (before rest : List Signal) (ending : Ending)
    → All (IsOther job) before
    → wait_for_job unit job (before ++ job_removed job result ∷ rest) ending ≡ of_result result
unfolding wait_for_job
wait_for_job-own unit job result [] rest ending a = rw (wait_for_job, text_eq_refl job) refl
wait_for_job-own unit job result (job_removed path r ∷ before) rest ending (n, a) =
    rw (wait_for_job, n) (wait_for_job-own unit job result before rest ending a)
wait_for_job-own unit job result (unreadable e ∷ before) rest ending (n, a) = absurd n

wait_for_job-none :
    (unit job : Text) (heard : List Signal) (ending : Ending)
    → All (IsOther job) heard
    → wait_for_job unit job heard ending ≡ of_ending unit job ending
unfolding wait_for_job
wait_for_job-none unit job [] stream_closed a = refl
wait_for_job-none unit job [] timed_out a = refl
wait_for_job-none unit job (job_removed path r ∷ heard) ending (n, a) =
    rw (wait_for_job, n) (wait_for_job-none unit job heard ending a)
wait_for_job-none unit job (unreadable e ∷ heard) ending (n, a) = absurd n

module _ (z : ZbusValues) (more : MoreValues z) {S : Type 0} (bus : Bus S z) where
  open bus use {connect, receive_job_removed, subscribe, start_transient_unit, signals}

  -- The bus takes all calls of `start` and gives the job.
  abbrev pub Begins : SystemdClient z → Text → S → S → Type 0
  Begins c job s t =
      (q r u : S) × (connect s ≡ (ok tt, q))
      × (receive_job_removed c.unit q ≡ (ok tt, r))
      × (subscribe r ≡ (ok tt, u))
      × (start_transient_unit c.unit replace_mode c.props u ≡ (ok job, t))

  -- Once its job is queued, a start ends as the first signal about that job says, whatever jobs the
  -- signals in front are about. Without one, it fails as the listening ended.
  pub start-job :
      (c : SystemdClient z) (job : Text) (s t u : S) (before : List Signal) (ending : Ending)
      → has_pids z more bus c.props ≡ true
      → Begins c job s t
      → All (IsOther job) before
      → ((result : Text) (rest : List Signal)
          → signals t ≡ ((before ++ job_removed job result ∷ rest, ending), u)
          → start z more bus (c, s) ≡ lift (of_result result) (c, u))
        × (signals t ≡ ((before, ending), u)
            → start z more bus (c, s) ≡ lift (of_ending c.unit job ending) (c, u))
  unfolding start
  start-job c job s t u before ending has (q, r, v, c1, c2, c3, c4) others = (
    λ result rest heard.
        rw
          (has, c1, c2, c3, c4, heard, wait_for_job-own c.unit job result before rest ending others)
          refl,
    λ heard.
        rw (has, c1, c2, c3, c4, heard, wait_for_job-none c.unit job before ending others) refl,
  )
