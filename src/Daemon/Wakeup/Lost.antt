-- ===== src/Daemon/Wakeup/Lost.antt =====
-- A request against the sleep of a wait.
use cpe_acs_connector_tr.Base.{true, false, ◌≡◌, ◌⊎◌, inl, inr, refl, arith}
use cpe_acs_connector_tr.Platform.{Platform}
use cpe_acs_connector_tr.Daemon.{
  Daemon, Flags, wakes, is_timed, request_stop, request_reload, request_reconnect,
  request_inform_now, trigger_connection_request,
}
use cpe_acs_connector_tr.Daemon.Wakeup.{
  testing, blocking, asleep, System, Step, Request, stop, connection_request, reload, reconnect,
  inform_now, with_flags, test_true, test_false, block, spurious, timeout, serve, wait_again,
  request, notify, Reach, later,
}

Request-wakes : {f : Flags → Flags} → Request f → (flags : Flags) → wakes (f flags) ≡ true
unfolding wakes request_stop request_reload request_reconnect request_inform_now
    trigger_connection_request
Request-wakes stop flags = refl
Request-wakes connection_request flags = ground arith
Request-wakes reload flags = ground arith
Request-wakes reconnect flags = ground arith
Request-wakes inform_now flags = ground arith

module _ {S : Type 0} (p : Platform S) where
  -- All that can happen is that the sleep ends for no reason, or that another request is made.
  abbrev pub IsLost : System S → Type 0
  IsLost t =
      (t.phase ≡ asleep)
      × (wakes t.daemon.flags ≡ true)
      × (t.notifications ≡ 0)
      × ((u : System S)
          → Step p t u
          → (u ≡ record t { phase = testing })
            ⊎ ((f : Flags → Flags) × Request f
                × (u ≡ record t { daemon = with_flags f t.daemon; notifications = 1 })))

  sleeps_on :
      (t : System S)
      → t.phase ≡ asleep
      → t.notifications ≡ 0
      → is_timed t.daemon.config ≡ false
      → (u : System S) → Step p t u
      → (u ≡ record t { phase = testing })
        ⊎ ((f : Flags → Flags) × Request f
            × (u ≡ record t { daemon = with_flags f t.daemon; notifications = 1 }))
  sleeps_on t at quiet untimed u (test_true k w) = cc
  sleeps_on t at quiet untimed u (test_false k w) = cc
  sleeps_on t at quiet untimed u (block k) = cc
  sleeps_on t at quiet untimed u (spurious k) = inl refl
  sleeps_on t at quiet untimed u (timeout k timed) = cc
  sleeps_on t at quiet untimed u (serve r d k served) = cc
  sleeps_on t at quiet untimed u (wait_again r d k) = cc
  sleeps_on t at quiet untimed u (request {f} r) = inr (f, r, rw quiet refl)
  sleeps_on t at quiet untimed u (notify n more) = absurd (omega arith)

  -- Any request can be slept through. Where the daemon's thread has tested the predicate and not
  -- yet gone to sleep, no notification is under way and no period is set, a thread can make this
  -- very request, whichever it is, and notify, and then the daemon goes to sleep: the request is
  -- there, and nothing but another request or a sleep that ends for no reason can happen.
  pub request-IsLost :
      (d : Daemon S) (s : System S) {f : Flags → Flags}
      → Reach p d s
      → s.phase ≡ blocking
      → s.notifications ≡ 0
      → is_timed s.daemon.config ≡ false
      → Request f
      → (u v t : System S) × (u ≡ record s { daemon = with_flags f s.daemon; notifications = 1 })
        × Step p s u
        × Step p u v
        × (v.notifications ≡ 0)
        × Step p v t
        × (t.daemon ≡ with_flags f s.daemon)
        × Reach p d t
        × IsLost t
  request-IsLost d s {f} reached at quiet untimed r =
      let asks = request r in
      let notifies = notify 0 (rw quiet refl) in
      let blocks = block (rw at refl) in
      let sleeping = later (later (later reached asks) notifies) blocks in
      (
        _,
        _,
        _,
        rw quiet refl,
        asks,
        notifies,
        refl,
        blocks,
        refl,
        sleeping,
        (refl, Request-wakes r s.daemon.flags, refl, sleeps_on _ refl refl untimed),
      )
