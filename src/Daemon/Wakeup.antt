-- ===== src/Daemon/Wakeup.antt =====
-- The wait against the threads that make requests (src/Tr069Daemon.cpp, `waitForNextInform`,
-- `triggerConnectionRequest` and the `request…` methods), one shared access at a time, except that
-- the reads of the flags behind the wait are one step. A thread that makes a request sets a flag
-- and then notifies, both without the mutex of the wait. `std::condition_variable::wait` with a
-- predicate tests it, sleeps while it is false, and tests it again when it is woken.
pub mod Missed
pub mod Lost
pub mod Served
use cpe_acs_connector_tr.Base.{ℕ, suc, Bool, true, false, Option, some, ◌≡◌}
use cpe_acs_connector_tr.Platform.{Platform}
use cpe_acs_connector_tr.Daemon.{
  Daemon, Flags, WakeReason, wakes, is_timed, check_flags, request_stop, request_reload,
  request_reconnect, request_inform_now, trigger_connection_request,
}

-- Where the daemon's thread stands: before it tests the predicate; between a test that failed and
-- the sleep; in the sleep; behind the wait, before it reads the flags; and past
-- `waitForNextInform`, with the reason.
pub data Phase : Type 0 where
  testing blocking asleep checking : Phase
  returned : WakeReason → Phase

-- `notifications` counts the threads that have set a flag and not yet notified. `missed` is for
-- the statements alone: since the last test, some thread notified before the sleep began.
pub record System (S : Type 0) : Type 0 where
  pub phase : Phase
  pub daemon : Daemon S
  pub notifications : ℕ
  pub missed : Bool

-- The five requests, by the flags that they leave.
pub data Request : (Flags → Flags) → Type 0 where
  stop : Request request_stop
  connection_request : Request trigger_connection_request
  reload : Request request_reload
  reconnect : Request request_reconnect
  inform_now : Request request_inform_now

abbrev pub with_flags : {S : Type 0} → (Flags → Flags) → Daemon S → Daemon S
with_flags f d = record d { flags = f d.flags }

-- `notify_all` wakes a thread that sleeps, and does nothing else.
abbrev pub woken : Phase → Phase
woken asleep = testing
woken phase = phase

abbrev pub misses : Phase → Bool → Bool
misses blocking missed = true
misses phase missed = missed

-- One step of one thread. The standard lets a sleep end with no notification. What the loop does
-- between two waits is left open.
pub data Step {S : Type 0} (p : Platform S) (s : System S) : System S → Type 0 where
  test_true :
      s.phase ≡ testing → wakes s.daemon.flags ≡ true → Step p s (record s { phase = checking })
  test_false :
      s.phase ≡ testing
      → wakes s.daemon.flags ≡ false
      → Step p s (record s { phase = blocking; missed = false })
  block : s.phase ≡ blocking → Step p s (record s { phase = asleep })
  spurious : s.phase ≡ asleep → Step p s (record s { phase = testing })
  timeout :
      s.phase ≡ asleep → is_timed s.daemon.config ≡ true → Step p s (record s { phase = checking })
  serve :
      (r : WakeReason) (d : Daemon S)
      → s.phase ≡ checking
      → check_flags p s.daemon.flags s.daemon ≡ some (r, d)
      → Step p s (record s { phase = returned r; daemon = d })
  wait_again :
      (r : WakeReason) (d : Daemon S)
      → s.phase ≡ returned r
      → Step p s (record s { phase = testing; daemon = d })
  request :
      {f : Flags → Flags}
      → Request f
      → Step p s (record s { daemon = with_flags f s.daemon; notifications = suc s.notifications })
  notify :
      (n : ℕ)
      → s.notifications ≡ suc n
      → Step p s
          (record s { phase = woken s.phase; notifications = n; missed = misses s.phase s.missed })

-- A first wait, with no request under way.
abbrev pub first_wait : {S : Type 0} → Daemon S → System S
first_wait d = record { phase = testing; daemon = d; notifications = 0; missed = false }

pub data Reach {S : Type 0} (p : Platform S) (d : Daemon S) : System S → Type 0 where
  start : Reach p d (first_wait d)
  later : {s t : System S} → Reach p d s → Step p s t → Reach p d t
