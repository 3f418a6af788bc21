-- ===== src/Daemon/Events.antt =====
-- The events of the Informs behind the first.
use cpe_acs_connector_tr.Base.{false, List, Option, none, some, ◌≡◌, refl, Bytes, codes, equal}
use mathlib.Core.Path.{subst}
use cpe_acs_connector_tr.Platform.{Platform}
use cpe_acs_connector_tr.Daemon.Rounds.{IfReturned, EachWay, round_rule}
use cpe_acs_connector_tr.Daemon.{
  Daemon, WakeReason, stop, periodic, connection_request, reload, reconnect, inform_now, contains,
  event_bootstrap, events_for, wait_for_next_inform,
}
use cpe_acs_connector_tr.Daemon.Loop.{Inputs, Next, finish, round_with, after_wait, round}

-- If another round follows, its Inform does not report the bootstrap.
abbrev pub NoBootstrap : {S : Type 0} → Next S → Type 0
NoBootstrap (finish d) = Unit {0}
NoBootstrap (round_with events d) = contains events event_bootstrap ≡ false

module _ {S : Type 0} (p : Platform S) where
  after_wait-NoBootstrap :
      (o : Option (WakeReason × Daemon S)) → IfReturned NoBootstrap (after_wait p o)
  unfolding after_wait events_for contains codes equal
  after_wait-NoBootstrap none = tt
  after_wait-NoBootstrap (some (stop, d)) = tt
  after_wait-NoBootstrap (some (periodic, d)) = refl
  after_wait-NoBootstrap (some (connection_request, d)) = refl
  after_wait-NoBootstrap (some (reload, d)) = refl
  after_wait-NoBootstrap (some (reconnect, d)) = refl
  after_wait-NoBootstrap (some (inform_now, d)) = refl

  NoBootstrap-EachWay : EachWay p NoBootstrap
  unfolding contains codes equal
  NoBootstrap-EachWay = record {
    waited = λ during d. after_wait-NoBootstrap (wait_for_next_inform p during d);
    changed = λ d. refl;
    stopped = λ d e. tt;
    rebooted = λ d. refl;
  }

  -- No round but the first reports the bootstrap: whatever the daemon's state, and whatever became
  -- of the session of a round, if it was held at all, the Inform of the next one does not hold
  -- "0 BOOTSTRAP".
  pub round_drops_bootstrap :
      (inputs : Inputs) (events events' : List Bytes) (d d' : Daemon S)
      → round p inputs events d ≡ some (round_with events' d')
      → contains events' event_bootstrap ≡ false
  round_drops_bootstrap inputs events events' d d' h =
      subst (IfReturned NoBootstrap) h
        (round_rule p NoBootstrap NoBootstrap-EachWay inputs events d)
