-- ===== src/Daemon/Rounds.antt =====
-- A rule for a round of the loop: what holds of each way in which one ends holds of the round.
use cpe_acs_connector_tr.Base.{
  Bool, true, false, not, List, [], ◌∷◌, Option, none, some, ◌≡◌, refl, if◌then◌else◌, Bytes,
}
use cpe_acs_connector_tr.Session
use cpe_acs_connector_tr.Session.{SessionOutcome, World, new_session}
use cpe_acs_connector_tr.Platform.{Platform}
use cpe_acs_connector_tr.Daemon.{
  Daemon, Flags, wait_for_next_inform, event_boot, event_reboot, event_value_change, is_idle,
}
use cpe_acs_connector_tr.Daemon.Loop.{
  Inputs, Next, finish, round_with, after_wait, conclude, end_round, after_reboot, then_reboot,
  then_session, reboot_or_end, mock_reboot, after_session, handle_reboot, round,
}

-- A predicate on what a round returns, if it does.
abbrev pub IfReturned : {S : Type 0} → (Next S → Type 0) → Option (Next S) → Type 0
IfReturned Good none = Unit {0}
IfReturned Good (some next) = Good next

-- The four ways: behind a wait; at once behind a change; at the test of the stop flag behind a
-- session; and behind a mock reboot.
pub record EachWay {S : Type 0} (p : Platform S) (Good : Next S → Type 0) : Type 0 where
  pub waited :
      (during : Flags) (d : Daemon S)
      → IfReturned Good (after_wait p (wait_for_next_inform p during d))
  pub changed : (d : Daemon S) → Good (round_with (event_value_change ∷ []) d)
  pub stopped : (d : Daemon S) → d.flags.stop ≡ true → Good (finish d)
  pub rebooted : (d : Daemon S) → Good (round_with (event_boot ∷ event_reboot ∷ []) d)

module _ {S : Type 0} (p : Platform S) (Good : Next S → Type 0) (ways : EachWay p Good) where
  conclude-IfReturned :
      (during : Flags) (again : Bool) (d : Daemon S) → IfReturned Good (conclude p during again d)
  unfolding conclude
  conclude-IfReturned during true d = ways.changed d
  conclude-IfReturned during false d =
      elim d.flags.stop
          as (λ b.
            d.flags.stop ≡ b
            → IfReturned Good
                (if b then some (finish d) else after_wait p (wait_for_next_inform p during d))) [
                  | true ↦ λ e. ways.stopped d e
                  | false ↦ λ e. ways.waited during d
                ]
        refl

  end_round-IfReturned : (inputs : Inputs) (d : Daemon S) → IfReturned Good (end_round p inputs d)
  unfolding end_round
  end_round-IfReturned inputs d = conclude-IfReturned inputs.during_wait _ _

  after_reboot-IfReturned :
      (inputs : Inputs) (d : Daemon S) → IfReturned Good (after_reboot p inputs d)
  unfolding after_reboot
  after_reboot-IfReturned inputs d =
      elim d.config.mock_mode
        as (λ b. IfReturned Good (
          if b
          then some (round_with (event_boot ∷ event_reboot ∷ []) (mock_reboot p d))
          else end_round p inputs d)) [
            | true ↦ ways.rebooted (mock_reboot p d)
            | false ↦ end_round-IfReturned inputs d
          ]

  reboot_or_end-IfReturned :
      (inputs : Inputs) (outcome : SessionOutcome) (d : Daemon S)
      → IfReturned Good (reboot_or_end p inputs outcome d)
  unfolding reboot_or_end
  reboot_or_end-IfReturned inputs outcome d =
      elim outcome.reboot_requested
        as (λ b.
          IfReturned Good
            (if not b then end_round p inputs d else after_reboot p inputs (handle_reboot p d))) [
              | true ↦ after_reboot-IfReturned inputs (handle_reboot p d)
              | false ↦ end_round-IfReturned inputs d
            ]

  then_reboot-IfReturned :
      (inputs : Inputs) (outcome : SessionOutcome) (o : Option (Daemon S))
      → IfReturned Good (then_reboot p inputs outcome o)
  then_reboot-IfReturned inputs outcome none = tt
  then_reboot-IfReturned inputs outcome (some d) = reboot_or_end-IfReturned inputs outcome d

  then_session-IfReturned :
      (inputs : Inputs) (events : List Bytes) (d : Daemon S) (o : Option (SessionOutcome × World S))
      → IfReturned Good (then_session p inputs events d o)
  unfolding after_session
  then_session-IfReturned inputs events d none = tt
  then_session-IfReturned inputs events d (some (outcome, w)) =
      then_reboot-IfReturned inputs outcome _

  pub round_rule :
      (inputs : Inputs) (events : List Bytes) (d : Daemon S)
      → IfReturned Good (round p inputs events d)
  unfolding round
  round_rule inputs events d =
      let session = Session.run p.api p.xml p.clock events (new_session d.device inputs.replies) in
      elim (is_idle d.config)
        as (λ b. IfReturned Good (
          if b
          then after_wait p (wait_for_next_inform p inputs.during_wait d)
          else then_session p inputs events d session)) [
            | true ↦ ways.waited inputs.during_wait d
            | false ↦ then_session-IfReturned inputs events d session
          ]
