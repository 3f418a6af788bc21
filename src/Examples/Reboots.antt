-- ===== src/Examples/Reboots.antt =====
-- A device that reboots, with a store and nothing else.
use cpe_acs_connector_tr.Base.{
  Bool, true, false, List, [], ◌∷◌, Option, none, some, ◌≡◌, refl, ap, Bytes, codes, equal,
}
use cpe_acs_connector_tr.Transformer.{TransformerApi}
use cpe_acs_connector_tr.HttpClient.{Curl}
use cpe_acs_connector_tr.Download.{System}
use cpe_acs_connector_tr.Platform.{Platform}
use cpe_acs_connector_tr.Config.{default_config, info}
use cpe_acs_connector_tr.Daemon.{
  Daemon, contains, event_boot, event_reboot, refresh_config, config_changed,
}
use cpe_acs_connector_tr.Daemon.Kept.{device_of}
use cpe_acs_connector_tr.Daemon.Loop.{
  Inputs, reboot_or_end, note_reboot_event, start, handle_reboot,
}
use cpe_acs_connector_tr.Session.{SessionOutcome, no_outcome}
use cpe_acs_connector_tr.Uci
use cpe_acs_connector_tr.Uci.Words.{split}
use cpe_acs_connector_tr.Reboot
use cpe_acs_connector_tr.Daemon.Reboots.{Restarts, reboot_reported, reboot_reported_once}
use cpe_acs_connector_tr.Examples.{xml, clock, quiet}
use cpe_acs_connector_tr.Examples.Stores.{Stores, uci_shell, uci_store, nothing_stored}

abbrev api : TransformerApi Stores
api = record {
  get_parameter_values = λ s paths reveal. ([], []);
  set_parameter_values =
      λ s values key. (record { success = true; error = []; failed_parameter = [] }, s);
  get_parameter_names = λ s path. ([], []);
}

abbrev curl : Curl Stores
curl = record {
  open_file = λ s path. (true, s);
  easy_init = λ s. true;
  perform = λ s request. (([], 404), s);
  remove_file = λ s path. s;
}

abbrev system : System Stores
system = record {
  make_directory = λ s path. (none, s);
  now_iso = λ s. codes "2024-01-01T00:00:00Z";
  sleep = λ s n. s;
}

abbrev device : Platform Stores
device = record {
  api = api;
  ready = true;
  shell = uci_shell;
  xml = xml;
  curl = curl;
  system = system;
  clock = clock;
  getenv = λ name. none;
  can_listen = λ s config. true;
}

execute_keeps : (mock : Bool) (s : Stores) → (Reboot.execute uci_shell mock s).1 ≡ s
unfolding Reboot.execute codes split
execute_keeps true s = refl
execute_keeps false s = refl

-- The device boots on what is stored.
abbrev restarts : Restarts Stores device uci_store
restarts = record {
  restarted = λ s. (s.1, s.1);
  restarts = λ s k. refl;
  reboots = λ mock s k. ap (λ r. r.1 k) (execute_keeps mock s);
}

abbrev on : Stores → Daemon Stores
on s = record {
  config = record default_config { acs_url = codes "http://acs"; mock_mode = false };
  level = info;
  connection_server = none;
  flags = quiet;
  state = codes "idle";
  device = s;
}

abbrev flagged : Stores
unfolding Uci.set
flagged =
    (Uci.set uci_shell false nothing_stored (codes "tr69.settings.pending_reboot_event")
      (codes "1")).1

abbrev stored : Stores
unfolding Uci.commit
stored = (Uci.commit uci_shell false flagged (codes "tr69")).1

-- The ACS asks for a reboot, and the daemon waits behind it.
abbrev asked : SessionOutcome
asked = record no_outcome { success = true; reboot_requested = true }

abbrev waiting : Inputs
waiting = record {
  replies = [];
  transfer_replies = [];
  during_session = quiet;
  during_wait = quiet;
}

abbrev booted : Daemon Stores
unfolding handle_reboot
booted = on (
    restarts.restarted (
      device_of (handle_reboot device (on nothing_stored)).device
        (reboot_or_end device waiting asked (on nothing_stored))))

abbrev started : Option (List Bytes × Daemon Stores) → List Bytes × Daemon Stores
started none = ([], booted)
started (some r) = r

reboot_reported_example : contains (started (start device booted)).0 event_reboot ≡ true
unfolding Uci.set Uci.commit Uci.valid_key codes start booted refresh_config config_changed
reboot_reported_example =
    reboot_reported device uci_store restarts waiting asked (on nothing_stored) booted
      (started (start device booted)).1 flagged stored (started (start device booted)).0 refl refl
      refl refl refl refl refl

-- The daemon behind its first session, which has reported the reboot.
abbrev reported : List Bytes
reported = event_boot ∷ event_reboot ∷ []

abbrev informed : Daemon Stores
unfolding stored
informed =
    let d = on stored in record d { config = record d.config { pending_reboot_event = true } }

abbrev success : SessionOutcome
success = record no_outcome { success = true }

abbrev reset : Stores
unfolding Uci.set informed
reset =
    (Uci.set uci_shell false informed.device (codes "tr69.settings.pending_reboot_event")
      (codes "0")).1

abbrev reset_for_good : Stores
unfolding Uci.commit reset
reset_for_good = (Uci.commit uci_shell false reset (codes "tr69")).1

abbrev rebooted : Daemon Stores
unfolding note_reboot_event informed
rebooted = on (restarts.restarted (note_reboot_event device success reported informed).device)

reboot_reported_once_example : contains (started (start device rebooted)).0 event_reboot ≡ false
unfolding Uci.set Uci.commit Uci.valid_key codes start rebooted refresh_config config_changed
    contains equal
reboot_reported_once_example =
    reboot_reported_once device uci_store restarts success reported informed rebooted
      (started (start device rebooted)).1 reset reset_for_good (started (start device rebooted)).0
      refl refl refl refl refl refl refl refl
