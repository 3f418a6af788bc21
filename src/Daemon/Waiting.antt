-- ===== src/Daemon/Waiting.antt =====
-- How the wait serves the requests of other threads.
use cpe_acs_connector_tr.Base.{Bool, true, false, Option, none, some, ◌≡◌, ◌↔◌, arith}
use mathlib.Core.Path.{subst}
use cpe_acs_connector_tr.Platform.{Platform}
use cpe_acs_connector_tr.Daemon.{
  Daemon, Flags, WakeReason, stop, periodic, connection_request, reload, reconnect, inform_now,
  raise, wakes, is_timed, check_flags, wait_for_next_inform,
}
use cpe_acs_connector_tr.Daemon.Refresh.{refresh_config-frame}

-- The request that a reason stands for is there; a periodic wake-up finds none.
abbrev pub Requested : WakeReason → Flags → Type 0
Requested stop f = f.stop ≡ true
Requested periodic f = wakes f ≡ false
Requested connection_request f = f.connection_requested ≡ true
Requested reload f = f.reload_requested ≡ true
Requested reconnect f = f.reconnect_requested ≡ true
Requested inform_now f = f.inform_now_requested ≡ true

-- The flags without the request that is served. A stop is never taken back.
abbrev pub cleared : WakeReason → Flags → Flags
cleared stop f = f
cleared periodic f = f
cleared connection_request f = record f { connection_requested = false }
cleared reload f = record f { reload_requested = false }
cleared reconnect f = record f { reconnect_requested = false }
cleared inform_now f = record f { inform_now_requested = false }

module _ {S : Type 0} (p : Platform S) where
  -- The result of a wait on the flags `f`.
  abbrev pub Serves : Flags → Bool → Option (WakeReason × Daemon S) → Type 0
  Serves f timed none = (wakes f ≡ false) × (timed ≡ false)
  Serves f timed (some (r, d')) = Requested r f × (d'.flags ≡ cleared r f)

  pub check_flags-Serves :
      (f : Flags) (d : Daemon S) → Serves f (is_timed d.config) (check_flags p f d)
  unfolding check_flags wakes
  check_flags-Serves f d =
      ground
        (arith, refresh_config-frame p (record d { flags = record f { reload_requested = false } }))

  -- A wait that ends serves one request that was made, before or during the wait, and drops only
  -- that one: all others are still pending. It ends with no request only as a periodic wake-up,
  -- and then there was none.
  pub wait_serves_one :
      (during : Flags) (d d' : Daemon S) (r : WakeReason)
      → wait_for_next_inform p during d ≡ some (r, d')
      → Requested r (raise during d.flags) × (d'.flags ≡ cleared r (raise during d.flags))
  unfolding wait_for_next_inform
  wait_serves_one during d d' r h =
      subst (Serves (raise during d.flags) (is_timed d.config)) h
        (check_flags-Serves (raise during d.flags) d)

  -- The wait goes on just where no request is there and no period is set.
  pub wait_goes_on :
      (during : Flags) (d : Daemon S)
      → (wait_for_next_inform p during d ≡ none)
        ↔ ((wakes (raise during d.flags) ≡ false) × (is_timed d.config ≡ false))
  unfolding wait_for_next_inform check_flags
  wait_goes_on during d =
      let f = raise during d.flags in
      (
        (λ h. subst (Serves f (is_timed d.config)) h (check_flags-Serves f d)),
        λ (asleep, untimed). rw (asleep, untimed),
      )
