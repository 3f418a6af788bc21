-- ===== src/Daemon/Kept.antt =====
-- What the end of a round does to the device: it reads the configuration and waits, and changes
-- nothing.
use cpe_acs_connector_tr.Base.{
  Bool, true, false, not, ◌&&◌, ◌||◌, Option, none, some, ◌≡◌, refl, ap, sym, ◌∙◌, arith,
  if◌then◌else◌,
}
use cpe_acs_connector_tr.Platform.{Platform}
use cpe_acs_connector_tr.Session.{SessionOutcome}
use cpe_acs_connector_tr.Daemon.{
  Daemon, Flags, WakeReason, stop, periodic, connection_request, reload, reconnect, inform_now,
  refresh_config, restart_connection_server, check_flags, wait_for_next_inform, raise,
  connection_changed, updated_config,
}
use cpe_acs_connector_tr.Daemon.Loop.{
  Next, finish, round_with, Inputs, after_wait, conclude, end_round, handle_reboot, persist,
  after_reboot, reboot_or_end,
}

-- The device behind a round or a wait; the one before, where it waits for more.
abbrev pub device_of : {S : Type 0} → S → Option (Next S) → S
device_of s none = s
device_of s (some (finish d)) = d.device
device_of s (some (round_with events d)) = d.device

abbrev waited_device : {S : Type 0} → S → Option (WakeReason × Daemon S) → S
waited_device s none = s
waited_device s (some (r, d)) = d.device

module _ {S : Type 0} (p : Platform S) where
  one_of_three :
      (b x c : Bool) (d d1 d2 : Daemon S)
      → d1.device ≡ d.device
      → d2.device ≡ d.device
      → let r : Bool × Daemon S = if not b then (false, d) else (x, if c then d1 else d2) in
        r.1.device ≡ d.device
  one_of_three false x c d d1 d2 h k = refl
  one_of_three true x true d d1 d2 h k = h
  one_of_three true x false d d1 d2 h k = k

  refresh_config-device :
      (initial : Bool) (d : Daemon S) → (refresh_config p initial d).1.device ≡ d.device
  unfolding refresh_config restart_connection_server
  refresh_config-device initial d =
      one_of_three p.ready _
        (not initial && connection_changed p (updated_config p initial d) d.config) d _ _ refl refl

  check_flags-device :
      (f : Flags) (d : Daemon S) → waited_device d.device (check_flags p f d) ≡ d.device
  unfolding check_flags
  check_flags-device f d = ground (
    arith,
    refresh_config-device false (record d { flags = record f { reload_requested = false } }),
  )

  after_wait-device :
      (s : S) (o : Option (WakeReason × Daemon S))
      → device_of s (after_wait p o) ≡ waited_device s o
  unfolding after_wait
  after_wait-device s none = refl
  after_wait-device s (some (stop, d)) = refl
  after_wait-device s (some (periodic, d)) = refl
  after_wait-device s (some (connection_request, d)) = refl
  after_wait-device s (some (reload, d)) = refl
  after_wait-device s (some (reconnect, d)) = refl
  after_wait-device s (some (inform_now, d)) = refl

  either_device :
      (b : Bool) (s : S) (o o' : Option (Next S))
      → device_of s o ≡ s
      → device_of s o' ≡ s
      → device_of s (if b then o else o') ≡ s
  either_device true s o o' h k = h
  either_device false s o o' h k = k

  second_device :
      (b : Bool) (s : S) (o o' : Option (Next S))
      → b ≡ false
      → device_of s o' ≡ s
      → device_of s (if b then o else o') ≡ s
  second_device true s o o' e k = cc
  second_device false s o o' e k = k

  conclude-device :
      (during : Flags) (again : Bool) (d : Daemon S)
      → device_of d.device (conclude p during again d) ≡ d.device
  unfolding conclude wait_for_next_inform
  conclude-device during true d = refl
  conclude-device during false d = either_device d.flags.stop d.device _ _ refl (
      after_wait-device d.device (check_flags p (raise during d.flags) d)
      ∙ check_flags-device (raise during d.flags) d)

  end_round-device :
      (inputs : Inputs) (d : Daemon S) → device_of d.device (end_round p inputs d) ≡ d.device
  unfolding end_round
  end_round-device inputs d =
      let f = raise inputs.during_session d.flags in
      let before = record d { flags = record f { reload_requested = false } } in
      let (changed, d') = refresh_config p false before in
      let kept : d'.device ≡ d.device = refresh_config-device false before in
      ap (λ s. device_of s (end_round p inputs d)) (sym kept)
      ∙ conclude-device inputs.during_wait (f.reload_requested || changed) d'
      ∙ kept

  -- Behind a round that reboots for real, the device is as the reboot leaves it.
  pub reboot_or_end-device :
      (inputs : Inputs) (outcome : SessionOutcome) (d : Daemon S)
      → outcome.reboot_requested ≡ true
      → d.config.mock_mode ≡ false
      → device_of (handle_reboot p d).device (reboot_or_end p inputs outcome d)
        ≡ (handle_reboot p d).device
  unfolding reboot_or_end after_reboot handle_reboot persist
  reboot_or_end-device inputs outcome d asked real =
      let behind = handle_reboot p d in
      second_device (not outcome.reboot_requested) behind.device _ _ (ap not asked) (
        second_device behind.config.mock_mode behind.device _ _ real
          (end_round-device inputs behind))
