-- ===== src/Daemon/Loop.antt =====
-- The rounds of the daemon's main loop (src/Tr069Daemon.cpp, `run`). Logging is left out.
use cpe_acs_connector_tr.Base.{
  Bool, true, false, not, ◌&&◌, ◌||◌, List, [], ◌∷◌, Option, none, some, if◌then◌else◌, Bytes,
  codes,
}
use cpe_acs_connector_tr.Types.{DownloadRequest, TransferResult}
use cpe_acs_connector_tr.Http.{HttpResponse}
use cpe_acs_connector_tr.Session
use cpe_acs_connector_tr.Session.{SessionOutcome, World, new_session}
use cpe_acs_connector_tr.Uci
use cpe_acs_connector_tr.Download
use cpe_acs_connector_tr.Reboot
use cpe_acs_connector_tr.Platform.{Platform}
use cpe_acs_connector_tr.Daemon.{
  Daemon, stop, Flags, WakeReason, contains, event_boot, event_reboot, event_value_change,
  events_for, http_config, initial_events, is_idle, raise, refresh_config,
  restart_connection_server, wait_for_next_inform,
}

-- The end of the loop, or its next round with these events.
pub data Next (S : Type 0) : Type 0 where
  finish : Daemon S → Next S
  round_with : List Bytes → Daemon S → Next S

-- What comes from outside in one round: the answers to the session, and to the session that
-- reports a transfer; and the flags that other threads raise before the exchange behind the
-- session, and then until the wait is over.
pub record Inputs : Type 0 where
  pub replies : List HttpResponse
  pub transfer_replies : List HttpResponse
  pub during_session : Flags
  pub during_wait : Flags

module _ {S : Type 0} (p : Platform S) where
  unfoldable pub after_wait : Option (WakeReason × Daemon S) → Option (Next S)
  after_wait none = none
  after_wait (some (stop, d)) = some (finish d)
  after_wait (some (reason, d)) = some (round_with (events_for reason) d)

  -- `uci_.set` and `uci_.commit`, whose results are only logged.
  unfoldable pub persist : Bytes → Bytes → Daemon S → Daemon S
  persist key value d =
      let (_, s) = Uci.set p.shell false d.device key value in
      let (_, s') = Uci.commit p.shell false s (codes "tr69") in record d { device = s' }

  unfoldable pub note_bootstrap : SessionOutcome → Daemon S → Daemon S
  note_bootstrap outcome d =
      if outcome.success && not d.config.bootstrap_done
      then persist (codes "tr69.settings.bootstrap_done") (codes "1")
          (record d { config = record d.config { bootstrap_done = true } })
      else d

  unfoldable pub note_reboot_event : SessionOutcome → List Bytes → Daemon S → Daemon S
  note_reboot_event outcome events d =
      if outcome.success && (d.config.pending_reboot_event && contains events event_reboot)
      then persist (codes "tr69.settings.pending_reboot_event") (codes "0")
          (record d { config = record d.config { pending_reboot_event = false } })
      else d

  abbrev pub download_directory : Bytes
  download_directory = codes "/tmp/tr69-downloads"

  -- The report of a transfer in a session of its own, and the refresh behind it; the results of
  -- both are dropped.
  unfoldable pub report_transfer : List HttpResponse → TransferResult → Daemon S → Option (Daemon S)
  report_transfer replies transfer d =
      elim (Session.run_transfer_complete p.api p.xml p.clock transfer
        (new_session d.device replies)) [
          | none ↦ none
          | some (_, w) ↦ some (refresh_config p false (record d { device = w.store })).1
        ]

  unfoldable pub handle_download :
      List HttpResponse → Option DownloadRequest → Daemon S → Option (Daemon S)
  handle_download replies none d = some d
  handle_download replies (some request) d =
      let (transfer, s) =
        Download.execute p.system p.curl download_directory d.device request
          (http_config d.config) in
      report_transfer replies transfer (record d { device = s })

  -- The flag is stored before the reboot is asked for.
  unfoldable pub handle_reboot : Daemon S → Daemon S
  handle_reboot d =
      let d' =
        persist (codes "tr69.settings.pending_reboot_event") (codes "1")
          (record d { config = record d.config { pending_reboot_event = true } }) in
      let (_, s) = Reboot.execute p.shell d'.config.mock_mode d'.device in record d' { device = s }

  -- Behind the refresh that ends a round: `again` is `reloadDuringSession || changedAfterSession`.
  unfoldable pub conclude : Flags → Bool → Daemon S → Option (Next S)
  conclude during_wait true d = some (round_with (event_value_change ∷ []) d)
  conclude during_wait false d =
      if d.flags.stop then some (finish d) else after_wait (wait_for_next_inform p during_wait d)

  -- From the exchange of `reloadRequested_` on.
  unfoldable pub end_round : Inputs → Daemon S → Option (Next S)
  end_round inputs d =
      let f = raise inputs.during_session d.flags in
      let (changed, d') =
        refresh_config p false (record d { flags = record f { reload_requested = false } }) in
      conclude inputs.during_wait (f.reload_requested || changed) d'

  -- A mock reboot: the refresh, and `sleep_for` two seconds.
  unfoldable pub mock_reboot : Daemon S → Daemon S
  mock_reboot d =
      let (_, d') = refresh_config p false d in record d' { device = p.system.sleep d'.device 2 }

  -- Behind the reboot; a mock reboot ends the round.
  unfoldable pub after_reboot : Inputs → Daemon S → Option (Next S)
  after_reboot inputs d =
      if d.config.mock_mode
      then some (round_with (event_boot ∷ event_reboot ∷ []) (mock_reboot d))
      else end_round inputs d

  -- The reboot, if it is asked for.
  unfoldable pub reboot_or_end : Inputs → SessionOutcome → Daemon S → Option (Next S)
  reboot_or_end inputs outcome d =
      if not outcome.reboot_requested
      then end_round inputs d
      else after_reboot inputs (handle_reboot d)

  abbrev pub then_reboot : Inputs → SessionOutcome → Option (Daemon S) → Option (Next S)
  then_reboot inputs outcome none = none
  then_reboot inputs outcome (some d) = reboot_or_end inputs outcome d

  -- Behind the session.
  unfoldable pub after_session : Inputs → List Bytes → SessionOutcome → Daemon S → Option (Next S)
  after_session inputs events outcome d =
      let state = if outcome.success then codes "idle" else codes "error" in
      let noted =
        note_reboot_event outcome events (note_bootstrap outcome (record d { state = state })) in
      then_reboot inputs outcome (handle_download inputs.transfer_replies outcome.download noted)

  abbrev pub then_session :
      Inputs → List Bytes → Daemon S → Option (SessionOutcome × World S) → Option (Next S)
  then_session inputs events d none = none
  then_session inputs events d (some (outcome, w)) =
      after_session inputs events outcome
        (record d { state = codes "connecting"; device = w.store })

  -- One round of the loop `while (!stop_)`; none where it waits for what the inputs do not hold.
  unfoldable pub round : Inputs → List Bytes → Daemon S → Option (Next S)
  round inputs events d =
      if is_idle d.config
      then after_wait (wait_for_next_inform p inputs.during_wait d)
      else then_session inputs events d
          (Session.run p.api p.xml p.clock events (new_session d.device inputs.replies))

  -- The rounds of `run`, one for each of the inputs. The test of the loop comes first.
  unfoldable pub rounds : List Inputs → List Bytes → Daemon S → Option (Next S)
  rounds [] events d = some (round_with events d)
  rounds (inputs ∷ later) events d =
      if d.flags.stop then some (finish d) else (elim (round inputs events d) [
        | none ↦ none
        | some (finish d') ↦ some (finish d')
        | some (round_with events' d') ↦ rounds later events' d'
      ])

  -- The part of `run` before the loop: none where it returns 1.
  unfoldable pub start : Daemon S → Option (List Bytes × Daemon S)
  start d =
      let (changed, d') = refresh_config p true d in
      let d'' = record (restart_connection_server p d') { state = codes "idle" } in
      if not changed then none else some (initial_events d''.config, d'')
