-- ===== src/Daemon/Bootstrap.antt =====
-- When the bootstrap counts as reported.
use cpe_acs_connector_tr.Base.{true, false, List, some, ◌≡◌, arith, Bytes}
use cpe_acs_connector_tr.Session
use cpe_acs_connector_tr.Session.{SessionOutcome, World, new_session}
use cpe_acs_connector_tr.Http.{HttpResponse}
use cpe_acs_connector_tr.Platform.{Platform}
use cpe_acs_connector_tr.Daemon.{Daemon, contains, event_bootstrap}
use cpe_acs_connector_tr.Daemon.Loop.{Inputs, round_with, note_bootstrap, persist, round}
use cpe_acs_connector_tr.Daemon.Events.{round_drops_bootstrap}

module _ {S : Type 0} (p : Platform S) where
  note_bootstrap-done :
      (outcome : SessionOutcome) (d : Daemon S)
      → outcome.success ≡ true
      → (note_bootstrap p outcome d).config.bootstrap_done ≡ true
  unfolding note_bootstrap persist
  note_bootstrap-done outcome d h = ground arith

  -- The bootstrap can be marked as done though no Inform that reports it was ever accepted. Take
  -- any round behind which the bootstrap is still open, as where its session failed: the Inform of
  -- the next round does not report the bootstrap, and if that session succeeds, the bootstrap is
  -- marked as done all the same.
  pub bootstrap_lost :
      (first : Inputs) (events events' : List Bytes) (d d' : Daemon S) (replies : List HttpResponse)
      (outcome : SessionOutcome) (w : World S)
      → round p first events d ≡ some (round_with events' d')
      → d'.config.bootstrap_done ≡ false
      → Session.run p.api p.xml p.clock events' (new_session d'.device replies) ≡ some (outcome, w)
      → outcome.success ≡ true
      → (contains events' event_bootstrap ≡ false)
        × ((note_bootstrap p outcome (record d' { device = w.store })).config.bootstrap_done ≡ true)
  bootstrap_lost first events events' d d' replies outcome w next open_yet run success = (
    round_drops_bootstrap p first events events' d d' next,
    note_bootstrap-done outcome (record d' { device = w.store }) success,
  )
