-- ===== src/Examples/Runs.antt =====
-- Waits in a row and a whole run at known inputs.
use cpe_acs_connector_tr.Base.{
  ℕ, Bool, true, false, [], ◌∷◌, Option, none, some, ◌≡◌, ◌≢◌, ◌⊎◌, inl, refl, codes, equal,
}
use cpe_acs_connector_tr.Config.{read_config}
use cpe_acs_connector_tr.DataModel.{get_internal}
use cpe_acs_connector_tr.Daemon.{
  Daemon, raise, wakes, is_timed, is_idle, refresh_config, config_changed, updated_config,
  check_flags, wait_for_next_inform, restart_connection_server, connection_changed,
}
use cpe_acs_connector_tr.Daemon.Loop.{Inputs, rounds, round, start, after_wait}
use cpe_acs_connector_tr.Daemon
use cpe_acs_connector_tr.Daemon.Run.{Exit, returned, run}
use cpe_acs_connector_tr.Daemon.Run.Ending.{Stops, run-Stops}
use cpe_acs_connector_tr.Daemon.Fairness.{
  Waits, one_wait, nothing_more, Among, lasts_inform, served_in_four,
}
use cpe_acs_connector_tr.Examples.{platform, daemon, quiet}

-- Three requests at once, where a period is set.
abbrev timed : Daemon ℕ
timed = record daemon { config = record daemon.config { periodic_enable = true } }

abbrev with_requests : (connection reconnect inform : Bool) → Daemon ℕ
with_requests connection reconnect inform = record timed {
  flags = record quiet {
    connection_requested = connection;
    reconnect_requested = reconnect;
    inform_now_requested = inform;
  };
}

all_three :
    Waits platform
      (with_requests true true true)
      (Daemon.connection_request ∷ Daemon.reconnect ∷ Daemon.inform_now ∷ Daemon.periodic ∷ [])
unfolding raise wait_for_next_inform check_flags wakes is_timed codes
all_three =
    let third = with_requests false false true in
    let last = with_requests false false false in
    one_wait quiet (with_requests true true true) (with_requests false true true)
      (with_requests false true true) refl refl (inl refl)
      (one_wait quiet (with_requests false true true) third third refl refl (inl refl) (
        one_wait quiet third last last refl refl (inl refl)
          (one_wait quiet last last last refl refl (inl refl) (nothing_more last))))

served_in_four_example :
    (wait_for_next_inform platform quiet (with_requests true true true) ≢ none)
    × Among Daemon.inform_now
        (Daemon.connection_request ∷ Daemon.reconnect ∷ Daemon.inform_now ∷ Daemon.periodic ∷ [])
served_in_four_example =
    served_in_four platform (with_requests true true true) quiet Daemon.inform_now
      Daemon.connection_request Daemon.reconnect Daemon.inform_now Daemon.periodic lasts_inform refl
      refl all_three

-- A stop comes while the daemon waits for a URL.
abbrev pub stopping : Inputs
stopping = record {
  replies = [];
  transfer_replies = [];
  during_session = quiet;
  during_wait = record quiet { stop = true };
}

abbrev pub daemon_of : Option (Exit ℕ) → Daemon ℕ
daemon_of (some (returned code d)) = d
daemon_of _ = daemon

abbrev pub at_end : Daemon ℕ
at_end = daemon_of (run platform (stopping ∷ []) daemon)

pub run_stopped : run platform (stopping ∷ []) daemon ≡ some (returned 0 at_end)
unfolding run start refresh_config config_changed updated_config rounds round is_idle
    restart_connection_server read_config equal get_internal codes after_wait wait_for_next_inform
    check_flags wakes raise
run_stopped = refl

run-Stops_example :
    ((platform.ready ≡ false) × ◌≡◌ {A = ℕ} 0 1 × (at_end ≡ daemon))
    ⊎ ((platform.ready ≡ true) × Stops platform 0 at_end)
run-Stops_example = run-Stops platform (stopping ∷ []) daemon at_end 0 run_stopped
