-- ===== src/Examples/Wakeups.antt =====
-- The wait, the callbacks of ubus, the signals and the log at known inputs.
use cpe_acs_connector_tr.Base.{
  ℕ, ◌≤◌, true, false, List, [], ◌∷◌, some, ◌≡◌, ◌≢◌, ◌⊎◌, refl, Bytes, codes,
}
use cpe_acs_connector_tr.Config.{DaemonConfig}
use cpe_acs_connector_tr.Daemon.{
  Daemon, WakeReason, wakes, is_timed, request_reload, trigger_connection_request,
  wait_for_next_inform,
}
use cpe_acs_connector_tr.Daemon
use cpe_acs_connector_tr.Daemon.Waiting.{Requested}
use cpe_acs_connector_tr.Daemon.Wakeup.{
  System, Step, blocking, asleep, checking, timeout, returned, Reach, start, later, test_false,
  block, request, notify, reload, connection_request, first_wait, with_flags,
}
use cpe_acs_connector_tr.Daemon.Wakeup.Missed.{asleep_missed}
use cpe_acs_connector_tr.Daemon.Wakeup.Lost.{IsLost, request-IsLost}
use cpe_acs_connector_tr.Daemon.Wakeup.Served.{ReturnedOrGoesOn, none_yet, one_more, wait_returns}
use cpe_acs_connector_tr.UbusServer.{UbusServer, new_server, call}
use cpe_acs_connector_tr.UbusServer
use cpe_acs_connector_tr.UbusServer.Handlers.{asks_reload, wait-call}
use cpe_acs_connector_tr.Main.{Signal, hangup, terminate, signal_thread, until_join}
use cpe_acs_connector_tr.Main.Signals.{any_ends, IsStopped, signal_thread-IsStopped}
use cpe_acs_connector_tr.Examples.{platform, daemon, quiet}

-- The wait has found no request, and the sleep has not begun.
abbrev blocked : System ℕ
blocked = record (first_wait daemon) { phase = blocking }

reach_blocked : Reach platform daemon blocked
unfolding wakes
reach_blocked = later start (test_false refl refl)

request-IsLost_example :
    (u v t : System ℕ) × (u
      ≡ record blocked { daemon = with_flags trigger_connection_request daemon; notifications = 1 })
    × Step platform blocked u
    × Step platform u v
    × (v.notifications ≡ 0)
    × Step platform v t
    × (t.daemon ≡ with_flags trigger_connection_request daemon)
    × Reach platform daemon t
    × IsLost platform t
unfolding is_timed codes
request-IsLost_example =
    request-IsLost platform daemon blocked reach_blocked refl refl refl connection_request

-- A reload came and was notified in between.
abbrev slept : System ℕ
slept = record {
  phase = asleep;
  daemon = with_flags request_reload daemon;
  notifications = 0;
  missed = true;
}

reach_slept : Reach platform daemon slept
reach_slept = later (later (later reach_blocked (request reload)) (notify 0 refl)) (block refl)

asleep_missed_example : slept.missed ≡ true
unfolding wakes request_reload
asleep_missed_example = asleep_missed platform daemon slept reach_slept refl refl refl

-- The same, where a period is set.
abbrev slept_timed : System ℕ
slept_timed = record slept {
  daemon = record slept.daemon { config = record daemon.config { periodic_enable = true } };
}

not_returned : (r : WakeReason) → slept_timed.phase ≢ returned r
not_returned r = λ e. cc

-- The period runs out.
abbrev woken_up : System ℕ
woken_up = record slept_timed { phase = checking }

wait_returns_example : (1 ≤ 4) × ReturnedOrGoesOn platform slept_timed woken_up
unfolding is_timed codes
wait_returns_example =
    wait_returns platform slept_timed woken_up 1 refl not_returned
      (one_more none_yet (timeout refl refl) refl)

abbrev registered : UbusServer
registered = record new_server { context = some 1; object = true; instance = true }

wait-call_example :
    (r' : WakeReason) × (d' : Daemon ℕ) × (wait_for_next_inform platform quiet
        (call platform 42 registered UbusServer.reload daemon).2
      ≡ some (r', d'))
    × ((r' ≡ Daemon.reload) ⊎ Requested Daemon.reload d'.flags)
unfolding call
wait-call_example =
    wait-call platform 42 registered UbusServer.reload Daemon.reload quiet daemon asks_reload refl

abbrev signals : List Signal
signals = hangup ∷ terminate ∷ []

signal_thread-IsStopped_example :
    let (ended, f) = signal_thread signals daemon.flags in
    (ended ≡ any_ends signals)
    × (ended ≡ true → IsStopped platform (with_flags (λ f0. (signal_thread signals f0).1) daemon))
    × (ended ≡ false → f.stop ≡ daemon.flags.stop)
    × ((signal_thread (until_join signals) daemon.flags).0 ≡ true)
signal_thread-IsStopped_example = signal_thread-IsStopped platform signals daemon

abbrev other_url : DaemonConfig
other_url = record daemon.config { acs_url = codes "http://other" }

abbrev noon : ℕ → Bytes
noon n = codes "2024-01-01T12:00:00+0000"
