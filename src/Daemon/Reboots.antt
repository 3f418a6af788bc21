-- ===== src/Daemon/Reboots.antt =====
-- A reboot across the restart of the device: what the daemon stores, and what the next one reports.
use cpe_acs_connector_tr.Base.{
  Bool, true, false, not, List, none, some, ◌≡◌, refl, sym, ap, ◌∙◌, arith, if◌then◌else◌, Bytes,
  codes, equal, is_empty, no_nul,
}
use cpe_acs_connector_tr.Platform.{Platform}
use cpe_acs_connector_tr.Config.{DaemonConfig, read_config}
use cpe_acs_connector_tr.Session.{SessionOutcome}
use cpe_acs_connector_tr.Reboot
use cpe_acs_connector_tr.Uci
use cpe_acs_connector_tr.Uci.{valid_key, bool_of, captured, get_bool, trim_newlines}
use cpe_acs_connector_tr.Uci.Store.{UciStore, get_stored, set-current, commit-saved}
use cpe_acs_connector_tr.Daemon.{
  Daemon, contains, event_reboot, initial_events, refresh_config, updated_config,
  restart_connection_server,
}
use cpe_acs_connector_tr.Daemon.Kept.{device_of, reboot_or_end-device}
use cpe_acs_connector_tr.Daemon.Loop.{
  Inputs, reboot_or_end, start, handle_reboot, note_reboot_event, persist,
}

abbrev reboot_key : Bytes
reboot_key = codes "tr69.settings.pending_reboot_event"

-- The device restarts on what is stored for good, and the command that reboots it stores nothing.
pub record Restarts (S : Type 0) (p : Platform S) (store : UciStore S p.shell) : Type 0 where
  pub restarted : S → S
  pub restarts : (s : S) (k : Bytes) → store.current (restarted s) k ≡ store.saved s k
  pub reboots :
      (mock : Bool) (s : S) (k : Bytes)
      → store.saved (Reboot.execute p.shell mock s).1 k ≡ store.saved s k

initial_events-event_reboot :
    (c : DaemonConfig) → contains (initial_events c) event_reboot ≡ c.pending_reboot_event
unfolding initial_events contains codes equal
initial_events-event_reboot c = ground arith

same_start {ℓ} :
    {A : Type ℓ} (b : Bool) (x y : A) → (if not b then none else some x) ≡ some y → x ≡ y
same_start true x y h = cc
same_start false x y h = cc

module _ {S : Type 0} (p : Platform S) where
  refresh_config-reboot :
      (d : Daemon S)
      → p.ready ≡ true
      → (refresh_config p true d).1.config.pending_reboot_event
        ≡ get_bool p.shell d.device reboot_key false
  unfolding refresh_config updated_config read_config
  refresh_config-reboot d ready = rw ready refl

  -- The events of the first Inform tell of a reboot just where the flag is stored.
  start-event_reboot :
      (d d' : Daemon S) (events : List Bytes)
      → p.ready ≡ true
      → start p d ≡ some (events, d')
      → contains events event_reboot ≡ get_bool p.shell d.device reboot_key false
  unfolding start restart_connection_server
  start-event_reboot d d' events ready started =
      let refreshed = refresh_config p true d in
      let same = same_start refreshed.0 _ _ started in
      ap (λ r. contains r.0 event_reboot) (sym same)
      ∙ initial_events-event_reboot refreshed.1.config
      ∙ refresh_config-reboot d ready

  module _ (store : UciStore S p.shell) where
    open store use {current, saved}

    -- `persist` stores the value for good, where both of its commands succeed.
    persist-saved :
        (d : Daemon S) (value : Bytes) (s1 s2 : S)
        → is_empty value ≡ false
        → no_nul value ≡ true
        → Uci.set p.shell false d.device reboot_key value ≡ (true, s1)
        → Uci.commit p.shell false s1 (codes "tr69") ≡ (true, s2)
        → saved s2 reboot_key ≡ some value
    unfolding valid_key codes equal
    persist-saved d value s1 s2 full whole set commit =
        (commit-saved p.shell store s1 s2 (codes "tr69") refl commit reboot_key).1
        ∙ (set-current p.shell store d.device s1 reboot_key value refl full whole set reboot_key
            refl).0

    persist-device :
        (d : Daemon S) (value : Bytes) (s1 s2 : S)
        → Uci.set p.shell false d.device reboot_key value ≡ (true, s1)
        → Uci.commit p.shell false s1 (codes "tr69") ≡ (true, s2)
        → (persist p reboot_key value d).device ≡ s2
    unfolding persist
    persist-device d value s1 s2 set commit = rw set (ap (λ r. r.1) commit)

    -- What the flag says where it is stored.
    stored_flag :
        (s : S) (value : Bytes)
        → current s reboot_key ≡ some value
        → get_bool p.shell s reboot_key false ≡ bool_of (some (trim_newlines value)) false
    unfolding get_bool valid_key codes
    stored_flag s value here =
        ap (λ o. bool_of o false) (get_stored p.shell store s reboot_key value refl here)

    module _ (restarts : Restarts S p store) where
      open restarts use {restarted}

      -- A reboot that the ACS has asked for is reported. If the two commands that store the flag
      -- succeed and the mock mode is off, then however the round ends or waits behind the reboot,
      -- the first Inform of the daemon that starts on the restarted device reports "M Reboot": the
      -- flag is stored for good before the reboot is asked for, and nothing undoes it.
      pub reboot_reported :
          (inputs : Inputs) (outcome : SessionOutcome) (d booted d' : Daemon S) (s1 s2 : S)
          (events : List Bytes)
          → outcome.reboot_requested ≡ true
          → d.config.mock_mode ≡ false
          → Uci.set p.shell false d.device reboot_key (codes "1") ≡ (true, s1)
          → Uci.commit p.shell false s1 (codes "tr69") ≡ (true, s2)
          → booted.device
            ≡ restarted (device_of (handle_reboot p d).device (reboot_or_end p inputs outcome d))
          → p.ready ≡ true
          → start p booted ≡ some (events, d')
          → contains events event_reboot ≡ true
      unfolding handle_reboot trim_newlines codes equal
      reboot_reported inputs outcome d booted d' s1 s2 events asked real set commit boot ready
            started =
          let flagged = record d { config = record d.config { pending_reboot_event = true } } in
          let persisted = persist-device flagged (codes "1") s1 s2 set commit in
          let mock = (persist p reboot_key (codes "1") flagged).config.mock_mode in
          let rebooted = ap (λ s. (Reboot.execute p.shell mock s).1) persisted in
          let here =
            restarts.restarts (Reboot.execute p.shell mock s2).1 reboot_key
            ∙ restarts.reboots mock s2 reboot_key
            ∙ persist-saved flagged (codes "1") s1 s2 refl refl set commit in
          start-event_reboot booted d' events ready started
          ∙ ap (λ s. get_bool p.shell s reboot_key false)
              (boot ∙ ap restarted (reboot_or_end-device p inputs outcome d asked real ∙ rebooted))
          ∙ stored_flag (restarted (Reboot.execute p.shell mock s2).1) (codes "1") here

      -- A reboot is reported once. Behind a session that has succeeded with "M Reboot" among its
      -- events, if the two commands that clear the flag succeed, the first Inform of a daemon that
      -- starts on the restarted device does not report it again.
      pub reboot_reported_once :
          (outcome : SessionOutcome) (reported : List Bytes) (d booted d' : Daemon S) (s1 s2 : S)
          (events : List Bytes)
          → outcome.success ≡ true
          → d.config.pending_reboot_event ≡ true
          → contains reported event_reboot ≡ true
          → Uci.set p.shell false d.device reboot_key (codes "0") ≡ (true, s1)
          → Uci.commit p.shell false s1 (codes "tr69") ≡ (true, s2)
          → booted.device ≡ restarted (note_reboot_event p outcome reported d).device
          → p.ready ≡ true
          → start p booted ≡ some (events, d')
          → contains events event_reboot ≡ false
      unfolding note_reboot_event trim_newlines codes equal
      reboot_reported_once outcome reported d booted d' s1 s2 events success pending told set commit
            boot ready started =
          let cleared = record d { config = record d.config { pending_reboot_event = false } } in
          let persisted = persist-device cleared (codes "0") s1 s2 set commit in
          let here =
            restarts.restarts s2 reboot_key
            ∙ persist-saved cleared (codes "0") s1 s2 refl refl set commit in
          let on : booted.device ≡ restarted s2 =
            rw (success, pending, told) at boot ∙ ap restarted persisted in
          start-event_reboot booted d' events ready started
          ∙ ap (λ s. get_bool p.shell s reboot_key false) on
          ∙ stored_flag (restarted s2) (codes "0") here
