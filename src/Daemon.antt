-- ===== src/Daemon.antt =====
-- The daemon's state, the refresh of its configuration, its wait and the requests from outside
-- (src/Tr069Daemon.cpp, include/tr069/Tr069Daemon.hpp); Loop: its rounds. The members that
-- other threads write are the five request flags: what they raise while a step runs is an
-- argument of the step. Logging is left out.
pub mod Loop
pub mod Refresh
pub mod Waiting
pub mod Rounds
pub mod Events
pub mod Run
pub mod Fairness
pub mod Kept
pub mod Reboots
pub mod Bootstrap
pub mod Wakeup
pub mod Status
use cpe_acs_connector_tr.Base.{
  ℕ, Bool, true, false, not, ◌&&◌, ◌||◌, List, [], ◌∷◌, Option, none, some, if◌then◌else◌, Bytes,
  codes, equal, is_empty,
}
use cpe_acs_connector_tr.Types.{DownloadRequest, TransferResult}
use cpe_acs_connector_tr.DataModel.{get, value_or_text}
use cpe_acs_connector_tr.Http.{HttpResponse, HttpConfig}
use cpe_acs_connector_tr.Session
use cpe_acs_connector_tr.Session.{SessionOutcome, World, new_session}
use cpe_acs_connector_tr.Uci
use cpe_acs_connector_tr.Download
use cpe_acs_connector_tr.Reboot
use cpe_acs_connector_tr.Platform.{ConnectionRequestConfig, Platform}
use cpe_acs_connector_tr.Config.{
  LogLevel, DaemonConfig, same, connection_request_equal, runtime_config_equal, read_config,
  read_log_level,
}

pub record Flags : Type 0 where
  pub stop : Bool
  pub connection_requested : Bool
  pub reload_requested : Bool
  pub reconnect_requested : Bool
  pub inform_now_requested : Bool

-- `connection_server` is the configuration of the server that listens, if one does. `device` is
-- the state of the device behind the transformer and the shell.
pub record Daemon (S : Type 0) : Type 0 where
  pub config : DaemonConfig
  pub level : LogLevel
  pub connection_server : Option ConnectionRequestConfig
  pub flags : Flags
  pub state : Bytes
  pub device : S

pub data WakeReason : Type 0 where
  stop periodic connection_request reload reconnect inform_now : WakeReason

abbrev pub event_bootstrap : Bytes
event_bootstrap = codes "0 BOOTSTRAP"

abbrev pub event_boot : Bytes
event_boot = codes "1 BOOT"

abbrev pub event_periodic : Bytes
event_periodic = codes "2 PERIODIC"

abbrev pub event_value_change : Bytes
event_value_change = codes "4 VALUE CHANGE"

abbrev pub event_connection_request : Bytes
event_connection_request = codes "6 CONNECTION REQUEST"

abbrev pub event_reboot : Bytes
event_reboot = codes "M Reboot"

-- `std::find(…) != events.end()`.
unfoldable pub contains : List Bytes → Bytes → Bool
contains [] event = false
contains (e ∷ events) event = equal e event || contains events event

-- The flags once other threads have raised some.
unfoldable pub raise : Flags → Flags → Flags
raise r f = record {
  stop = f.stop || r.stop;
  connection_requested = f.connection_requested || r.connection_requested;
  reload_requested = f.reload_requested || r.reload_requested;
  reconnect_requested = f.reconnect_requested || r.reconnect_requested;
  inform_now_requested = f.inform_now_requested || r.inform_now_requested;
}

-- The predicate `wake`.
unfoldable pub wakes : Flags → Bool
wakes f =
    f.stop || f.connection_requested || f.reload_requested || f.reconnect_requested
    || f.inform_now_requested

-- The ladder behind a wake-up.
unfoldable pub events_for : WakeReason → List Bytes
events_for connection_request = event_connection_request ∷ []
events_for periodic = event_periodic ∷ []
events_for inform_now = event_periodic ∷ []
events_for _ = event_value_change ∷ []

-- The events of the first Inform.
unfoldable pub initial_events : DaemonConfig → List Bytes
initial_events c =
    let reboot = if c.pending_reboot_event then event_reboot ∷ [] else [] in
    if not c.bootstrap_done then event_bootstrap ∷ event_boot ∷ reboot else event_boot ∷ reboot

unfoldable pub http_config : DaemonConfig → HttpConfig
http_config c = record {
  url = c.acs_url;
  username = c.acs_username;
  password = c.acs_password;
  ca_file = c.ca_file;
  insecure_tls = c.insecure_tls;
  timeout_seconds = 30;
}

-- The condition under which the loop has no session to hold.
unfoldable pub is_idle : DaemonConfig → Bool
is_idle c = not c.enable_cwmp || is_empty c.acs_url

-- `config_.enableCwmp && !config_.acsUrl.empty() && config_.periodicEnable`.
unfoldable pub is_timed : DaemonConfig → Bool
is_timed c = c.enable_cwmp && not (is_empty c.acs_url) && c.periodic_enable

module _ {S : Type 0} (p : Platform S) where
  unfoldable pub restart_connection_server : Daemon S → Daemon S
  restart_connection_server d = record d {
    connection_server =
        if not d.config.connection_request_enable
        then none
        else if p.can_listen d.device d.config.connection_request
        then some d.config.connection_request
        else none;
  }

  -- `updated`, once the empty read-back of the URL is replaced.
  unfoldable pub updated_config : Bool → Daemon S → DaemonConfig
  updated_config initial d =
      let c = read_config p d.device d.config in
      if not initial && (is_empty c.acs_url && not (is_empty d.config.acs_url))
      then record c { acs_url = d.config.acs_url }
      else c

  unfoldable pub connection_changed : DaemonConfig → DaemonConfig → Bool
  connection_changed updated previous =
      not (same updated.connection_request_enable previous.connection_request_enable)
      || not (connection_request_equal updated.connection_request previous.connection_request)

  unfoldable pub config_changed : Bool → DaemonConfig → DaemonConfig → Bool
  config_changed initial updated previous =
      initial
      || not (runtime_config_equal updated previous)
      || not (same updated.bootstrap_done previous.bootstrap_done)
      || not (same updated.pending_reboot_event previous.pending_reboot_event)

  -- The returned flag, and the daemon behind the call.
  unfoldable pub refresh_config : Bool → Daemon S → Bool × Daemon S
  refresh_config initial d =
      let updated = updated_config initial d in
      let d' = record d { config = updated; level = read_log_level p d.device } in
      if not p.ready then (false, d) else (
        config_changed initial updated d.config,
        if not initial && connection_changed updated d.config
            then restart_connection_server d'
            else d',
      )

  -- The checks of `waitForNextInform`, on the flags that it finds.
  unfoldable pub check_flags : Flags → Daemon S → Option (WakeReason × Daemon S)
  check_flags f d =
      if not (wakes f) && not (is_timed d.config)
      then none
      else if f.stop
      then some (stop, record d { flags = f })
      else if f.connection_requested
      then some (connection_request, record d { flags = record f { connection_requested = false } })
      else if f.reconnect_requested
      then some (reconnect, record d { flags = record f { reconnect_requested = false } })
      else if f.inform_now_requested
      then some (inform_now, record d { flags = record f { inform_now_requested = false } })
      else if f.reload_requested
      then some (
        reload,
        (refresh_config false (record d { flags = record f { reload_requested = false } })).1,
      )
      else some (periodic, record d { flags = f })

  -- One pass of `waitForNextInform`; none where it goes on waiting. `during` is what other
  -- threads raise until the flags are read.
  unfoldable pub wait_for_next_inform : Flags → Daemon S → Option (WakeReason × Daemon S)
  wait_for_next_inform during d = check_flags (raise during d.flags) d

-- `requestStop` and the other requests from outside.
unfoldable pub request_stop : Flags → Flags
request_stop f = record f { stop = true }

unfoldable pub request_reload : Flags → Flags
request_reload f = record f { reload_requested = true }

unfoldable pub request_reconnect : Flags → Flags
request_reconnect f = record f { reconnect_requested = true }

unfoldable pub request_inform_now : Flags → Flags
request_inform_now f = record f { inform_now_requested = true }

unfoldable pub trigger_connection_request : Flags → Flags
trigger_connection_request f = record f { connection_requested = true }
