-- ===== src/Main/Signals.antt =====
-- The signals against the daemon.
use cpe_acs_connector_tr.Base.{
  Bool, Bytes, true, false, ◌||◌, List, [], ◌∷◌, some, ◌≡◌, refl, sym, ap, ◌∙◌, Bool-cases, inl,
  inr,
}
use cpe_acs_connector_tr.Platform.{Platform}
use cpe_acs_connector_tr.Daemon.{
  Daemon, Flags, WakeReason, request_stop, request_reload, raise, wakes, check_flags,
  wait_for_next_inform,
}
use cpe_acs_connector_tr.Daemon.Loop.{Inputs, finish, rounds}
use cpe_acs_connector_tr.Daemon
use cpe_acs_connector_tr.Daemon.Wakeup.{with_flags}
use cpe_acs_connector_tr.Main.{Signal, interrupt, terminate, hangup, signal_thread, until_join}

-- The signals that end the program.
abbrev pub ends : Signal → Bool
ends hangup = false
ends _ = true

abbrev pub any_ends : List Signal → Bool
any_ends [] = false
any_ends (s ∷ signals) = ends s || any_ends signals

-- Whether a hangup comes first.
abbrev pub reloads : List Signal → Bool
reloads (hangup ∷ signals) = true
reloads _ = false

-- The thread's effect, in terms of the signals alone.
abbrev pub flags_behind : List Signal → Flags → Flags
flags_behind signals f = record f {
  stop = any_ends signals || f.stop;
  reload_requested = reloads signals || f.reload_requested;
}

signal_thread-flags :
    (signals : List Signal) (f : Flags)
    → signal_thread signals f ≡ (any_ends signals, flags_behind signals f)
unfolding signal_thread request_stop request_reload
signal_thread-flags [] f = refl
signal_thread-flags (hangup ∷ signals) f =
    rw (signal_thread-flags signals (request_reload f))
      (elim (Bool-cases (reloads signals)) [ inl e ↦ rw e refl | inr e ↦ rw e refl ])
signal_thread-flags (interrupt ∷ signals) f = refl
signal_thread-flags (terminate ∷ signals) f = refl

until_join-any_ends : (signals : List Signal) → any_ends (until_join signals) ≡ true
until_join-any_ends [] = refl
until_join-any_ends (hangup ∷ signals) = until_join-any_ends signals
until_join-any_ends (interrupt ∷ signals) = refl
until_join-any_ends (terminate ∷ signals) = refl

module _ {S : Type 0} (p : Platform S) where
  -- With the stop flag set, the loop ends at its test, and a wait that is entered then ends with the
  -- reason stop, whatever else is asked for.
  abbrev pub IsStopped : Daemon S → Type 0
  IsStopped d =
      ((inputs : Inputs) (later : List Inputs) (events : List Bytes)
        → rounds p (inputs ∷ later) events d ≡ some (finish d))
      × ((during : Flags)
          → wait_for_next_inform p during d
            ≡ some (Daemon.stop, record d { flags = raise during d.flags }))

  stop-IsStopped : (d : Daemon S) → d.flags.stop ≡ true → IsStopped d
  unfolding rounds wait_for_next_inform check_flags raise wakes
  stop-IsStopped d e = ((λ inputs later events. rw e refl), λ during. rw e refl)

  -- The thread that waits for signals has ended exactly when a SIGINT or SIGTERM was among them,
  -- and then it has set the stop flag: a loop that tests the flag then ends, and a wait that is
  -- entered then ends with the reason stop. While it has not ended, it has not touched the flag.
  -- With the SIGTERM that `main` sends at the end, it always ends.
  pub signal_thread-IsStopped :
      (signals : List Signal) (d : Daemon S)
      → let (ended, f) = signal_thread signals d.flags in
        (ended ≡ any_ends signals)
        × (ended ≡ true → IsStopped (with_flags (λ f0. (signal_thread signals f0).1) d))
        × (ended ≡ false → f.stop ≡ d.flags.stop)
        × ((signal_thread (until_join signals) d.flags).0 ≡ true)
  signal_thread-IsStopped signals d =
      let behind = signal_thread-flags signals d.flags in
      (
        ap (λ r. r.0) behind,
        (λ h.
            stop-IsStopped (with_flags (λ f0. (signal_thread signals f0).1) d)
              (rw behind (rw (sym (ap (λ r. r.0) behind) ∙ h) refl))),
        (λ h. rw behind (rw (sym (ap (λ r. r.0) behind) ∙ h) refl)),
        ap (λ r. r.0) (signal_thread-flags (until_join signals) d.flags)
            ∙ until_join-any_ends signals,
      )
