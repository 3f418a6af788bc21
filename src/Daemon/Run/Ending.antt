-- ===== src/Daemon/Run/Ending.antt =====
-- How `run` ends.
use cpe_acs_connector_tr.Base.{
  ℕ, true, false, List, [], ◌∷◌, Option, none, some, ◌≡◌, ◌⊎◌, inl, inr, refl, sym, ap, ◌∙◌,
  if◌then◌else◌, Bool-cases, Bytes,
}
use cpe_acs_connector_tr.Platform.{Platform}
use cpe_acs_connector_tr.Daemon.{
  Daemon, Flags, WakeReason, stop, periodic, connection_request, reload, reconnect, inform_now,
  wait_for_next_inform, refresh_config, config_changed,
}
use cpe_acs_connector_tr.Daemon.Loop.{
  Inputs, Next, finish, round_with, after_wait, round, rounds, start,
}
use cpe_acs_connector_tr.Daemon.Waiting.{wait_serves_one}
use cpe_acs_connector_tr.Daemon.Rounds.{IfReturned, EachWay, round_rule}
use cpe_acs_connector_tr.Daemon.Run.{returned, ended, after_start, run}

-- The loop ends with the stop flag set.
abbrev Stopped : {S : Type 0} → Next S → Type 0
Stopped (finish d) = d.flags.stop ≡ true
Stopped (round_with events d) = Unit {0}

module _ {S : Type 0} (p : Platform S) where
  waited-Stopped :
      (during : Flags) (d : Daemon S)
      → IfReturned Stopped (after_wait p (wait_for_next_inform p during d))
  unfolding after_wait
  waited-Stopped during d = go (wait_for_next_inform p during d) refl
    where
      go :
          (o : Option (WakeReason × Daemon S))
          → wait_for_next_inform p during d ≡ o
          → IfReturned Stopped (after_wait p o)
      go none e = tt
      go (some (stop, d')) e =
          let (asked, left) = wait_serves_one p during d d' stop e in rw left asked
      go (some (periodic, d')) e = tt
      go (some (connection_request, d')) e = tt
      go (some (reload, d')) e = tt
      go (some (reconnect, d')) e = tt
      go (some (inform_now, d')) e = tt

  Stopped-EachWay : EachWay p Stopped
  Stopped-EachWay = record {
    waited = waited-Stopped;
    changed = λ d. tt;
    stopped = λ d e. e;
    rebooted = λ d. tt;
  }

  rounds-Stopped :
      (inputs : List Inputs) (events : List Bytes) (d : Daemon S)
      → IfReturned Stopped (rounds p inputs events d)
  unfolding rounds
  rounds-Stopped [] events d = tt
  rounds-Stopped (i ∷ later) events d =
      elim d.flags.stop
          as (λ b.
            d.flags.stop ≡ b
            → IfReturned Stopped (
                if b then some (finish d) else elim (round p i events d) [
                  | none ↦ none
                  | some (finish d') ↦ some (finish d')
                  | some (round_with events' d') ↦ rounds p later events' d'
                ])) [
                  | true ↦ λ e. e
                  | false ↦ λ e.
                      next (round p i events d) (round_rule p Stopped Stopped-EachWay i events d)
                        (λ events' d'. rounds-Stopped later events' d')
                ]
        refl
    where
      next :
          (o : Option (Next S))
          → IfReturned Stopped o
          → ((events' : List Bytes) (d' : Daemon S)
              → IfReturned Stopped (rounds p later events' d'))
          → IfReturned Stopped (elim o [
            | none ↦ none
            | some (finish d') ↦ some (finish d')
            | some (round_with events' d') ↦ rounds p later events' d'
          ])
      next none h rest = tt
      next (some (finish d')) h rest = h
      next (some (round_with events' d')) h rest = rest events' d'

  -- The end of a run that got behind its start.
  abbrev pub Stops : ℕ → Daemon S → Type 0
  Stops code d' = (code ≡ 0) × (d'.flags.stop ≡ true) × (d'.connection_server ≡ none)

  ended-Stops :
      (o : Option (Next S)) (code : ℕ) (d' : Daemon S)
      → IfReturned Stopped o
      → ended o ≡ some (returned code d')
      → Stops code d'
  ended-Stops none code d' h e = cc
  ended-Stops (some (finish d)) code d' h e =
      let code_is : 0 ≡ code = cc in
      let is_left : record d { connection_server = none } ≡ d' = cc in
      (
        sym code_is,
        ap (λ (x : Daemon S). x.flags.stop) (sym is_left) ∙ h,
        ap (λ (x : Daemon S). x.connection_server) (sym is_left),
      )
  ended-Stops (some (round_with events d)) code d' h e = cc

  ready-start : (d : Daemon S) → p.ready ≡ true → start p d ≡ none → ⊥
  unfolding start refresh_config config_changed
  ready-start d e h = let started = rw e at h in cc

  run_unready :
      (inputs : List Inputs) (d : Daemon S) → p.ready ≡ false → run p inputs d ≡ some (returned 1 d)
  unfolding run start refresh_config
  run_unready inputs d e = rw e refl

  after_start-Stops :
      (inputs : List Inputs) (d d' : Daemon S) (code : ℕ) (o : Option (List Bytes × Daemon S))
      → (o ≡ none → ⊥)
      → after_start p inputs d o ≡ some (returned code d')
      → Stops code d'
  after_start-Stops inputs d d' code none started h = absurd (started refl)
  after_start-Stops inputs d d' code (some (events, d0)) started h =
      ended-Stops (rounds p inputs events d0) code d' (rounds-Stopped inputs events d0) h

  -- A run that returns has either found the transformer not ready, and then returns 1 with nothing
  -- changed, or it returns 0, a stop was asked for, and no server listens any more: no answer of
  -- the ACS, no failure and no other request ends the daemon.
  pub run-Stops :
      (inputs : List Inputs) (d d' : Daemon S) (code : ℕ)
      → run p inputs d ≡ some (returned code d')
      → ((p.ready ≡ false) × (code ≡ 1) × (d' ≡ d)) ⊎ ((p.ready ≡ true) × Stops code d')
  unfolding run
  run-Stops inputs d d' code h = elim (Bool-cases p.ready) [
    | inr e ↦
        let at_once = sym (run_unready inputs d e) ∙ h in
        let code_is : 1 ≡ code = cc in
        let is_left : d ≡ d' = cc in inl (e, sym code_is, sym is_left)
    | inl e ↦ inr (
      e,
      after_start-Stops inputs (refresh_config p true d).1 d' code (start p d) (ready-start d e) h,
    )
  ]
