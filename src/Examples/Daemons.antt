-- ===== src/Examples/Daemons.antt =====
-- The daemon at known inputs.
use cpe_acs_connector_tr.Base.{
  ℕ, true, false, List, [], ◌∷◌, Option, none, some, ◌≡◌, inl, refl, Bytes, codes, equal, stoul,
}
use cpe_acs_connector_tr.Http.{HttpResponse, ok}
use cpe_acs_connector_tr.Session.{
  SessionOutcome, World, new_session, no_outcome, run, next_id, begin_inform, post, empty_post,
  process_acs_messages, close_session,
}
use cpe_acs_connector_tr.Daemon.{
  Daemon, Flags, raise, contains, event_bootstrap, event_boot, config_changed, updated_config,
  connection_changed, restart_connection_server, event_value_change, refresh_config, is_idle,
}
use cpe_acs_connector_tr.Daemon.Loop.{
  Inputs, Next, round_with, round, note_bootstrap, note_reboot_event, after_session,
  handle_download, reboot_or_end, end_round, conclude,
}
use cpe_acs_connector_tr.Daemon.Refresh.{
  ServerFits, refresh_config-unchanged, refresh_config-ServerFits,
}
use cpe_acs_connector_tr.Daemon.Bootstrap.{bootstrap_lost}
use cpe_acs_connector_tr.SoapParser.{is_method}
use cpe_acs_connector_tr.DataModel.{get_internal}
use cpe_acs_connector_tr.Uci.{get_bool, get_unsigned}
use cpe_acs_connector_tr.Config.{read_config, runtime_config_equal, connection_request_equal}
use cpe_acs_connector_tr.Examples.{platform, daemon, quiet, answer}

refresh_config-ServerFits_example : ServerFits (refresh_config platform false daemon).1
refresh_config-ServerFits_example = refresh_config-ServerFits platform daemon (inl refl)

-- The daemon once it has read its configuration.
abbrev settled : Daemon ℕ
settled = (refresh_config platform false daemon).1

settled_kept : (refresh_config platform false settled).0 ≡ false
unfolding refresh_config config_changed runtime_config_equal updated_config read_config get_internal
    equal codes connection_changed get_bool connection_request_equal get_unsigned
    restart_connection_server stoul
settled_kept = refl

refresh_config-unchanged_example :
    ((refresh_config platform false settled).1.config ≡ settled.config)
    × ((refresh_config platform false settled).1.connection_server ≡ settled.connection_server)
refresh_config-unchanged_example = refresh_config-unchanged platform settled settled_kept

-- A connection request and a reload at once.
abbrev both : Flags
both = record quiet { connection_requested = true; reload_requested = true }

abbrev still_reload : Daemon ℕ
still_reload = record daemon { flags = record quiet { reload_requested = true } }

abbrev next_daemon : Option (Next ℕ) → Daemon ℕ → Daemon ℕ
next_daemon (some (round_with events d')) d = d'
next_daemon _ d = d

-- The first Inform is answered by a failure, and a reload is asked for meanwhile.
abbrev failing : Inputs
failing = record {
  replies = answer 500 [] ∷ [];
  transfer_replies = [];
  during_session = record quiet { reload_requested = true };
  during_wait = quiet;
}

abbrev first_events : List Bytes
first_events = event_bootstrap ∷ event_boot ∷ []

abbrev behind_first : Daemon ℕ
behind_first = next_daemon (round platform failing first_events settled) settled

abbrev later_events : List Bytes
later_events = event_value_change ∷ []

first_round :
    (round platform failing first_events settled ≡ some (round_with later_events behind_first))
    × (behind_first.config.bootstrap_done ≡ false)
unfolding round is_idle refresh_config connection_changed updated_config read_config get_internal
    equal codes get_bool connection_request_equal get_unsigned restart_connection_server run next_id
    begin_inform post ok note_bootstrap note_reboot_event after_session handle_download
    reboot_or_end end_round raise conclude config_changed runtime_config_equal stoul
first_round = (refl, refl)

-- The next Inform is accepted, and the ACS has nothing to ask.
abbrev accepting : List HttpResponse
accepting = answer 200 (codes "informed") ∷ answer 204 [] ∷ []

abbrev accepted : SessionOutcome
accepted = record no_outcome { success = true }

abbrev world_of : Option (SessionOutcome × World ℕ) → World ℕ → World ℕ
world_of none w = w
world_of (some (o, w')) w = w'

abbrev second : World ℕ
second =
    world_of
      (run platform.api platform.xml platform.clock later_events
        (new_session behind_first.device accepting))
      (new_session 0 [])

second_session :
    run platform.api platform.xml platform.clock later_events
      (new_session behind_first.device accepting)
    ≡ some (accepted, second)
unfolding run next_id begin_inform post ok is_method equal codes empty_post process_acs_messages
    close_session
second_session = refl

bootstrap_lost_example :
    (contains later_events event_bootstrap ≡ false)
    × ((note_bootstrap platform accepted
          (record behind_first { device = second.store })).config.bootstrap_done
        ≡ true)
bootstrap_lost_example =
    bootstrap_lost platform failing first_events later_events settled behind_first accepting
      accepted second first_round.0 first_round.1 second_session refl
