-- ===== src/Daemon/Wakeup/Missed.antt =====
-- The invariant of a sleep, over the steps of all threads.
use cpe_acs_connector_tr.Base.{◌<◌, Bool, true, false, ◌≡◌, ◌⊎◌, inl, inr, refl, arith}
use cpe_acs_connector_tr.Platform.{Platform}
use cpe_acs_connector_tr.Daemon.{Daemon, wakes}
use cpe_acs_connector_tr.Daemon.Wakeup.{
  Phase, woken, misses, testing, blocking, asleep, checking, returned, System, Step, test_true,
  test_false, block, spurious, timeout, serve, wait_again, request, notify, Reach, start, later,
}

-- Behind a test that failed, up to the end of the sleep.
abbrev committed : Phase → Bool
committed blocking = true
committed asleep = true
committed _ = false

-- A request that came behind the test is going to be notified, or the notification was missed.
abbrev IsCovered : {S : Type 0} → System S → Type 0
IsCovered s =
    committed s.phase ≡ true
    → wakes s.daemon.flags ≡ true
    → (0 < s.notifications) ⊎ (s.missed ≡ true)

Step-IsCovered :
    {S : Type 0} (p : Platform S) {s t : System S} → Step p s t → IsCovered s → IsCovered t
Step-IsCovered p (test_true at w) h c k = cc
Step-IsCovered p (test_false at w) h c k = cc
Step-IsCovered p (block at) h c k = h (rw at refl) k
Step-IsCovered p (spurious at) h c k = cc
Step-IsCovered p (timeout at timed) h c k = cc
Step-IsCovered p (serve r d at served) h c k = cc
Step-IsCovered p (wait_again r d at) h c k = cc
Step-IsCovered p (request r) h c k = inl (omega arith)
Step-IsCovered p {s} (notify n more) h c k = go s.phase refl c
  where
    go :
        (phase : Phase)
        → s.phase ≡ phase
        → committed (woken phase) ≡ true
        → (0 < n) ⊎ (misses phase s.missed ≡ true)
    go testing e c = cc
    go blocking e c = inr refl
    go asleep e c = cc
    go checking e c = cc
    go (returned r) e c = cc

Reach-IsCovered :
    {S : Type 0} (p : Platform S) (d : Daemon S) {s : System S} → Reach p d s → IsCovered s
Reach-IsCovered p d start = λ c k. cc
Reach-IsCovered p d (later r st) = Step-IsCovered p st (Reach-IsCovered p d r)

-- If the daemon sleeps though a request is there, and every thread that made one has notified,
-- then some thread notified between the test of the predicate and the sleep: there is no other
-- way to sleep through a request.
pub asleep_missed :
    {S : Type 0} (p : Platform S) (d : Daemon S) (s : System S)
    → Reach p d s
    → s.phase ≡ asleep
    → wakes s.daemon.flags ≡ true
    → s.notifications ≡ 0
    → s.missed ≡ true
asleep_missed p d s r at k none_left = elim (Reach-IsCovered p d r (rw at refl) k) [
  | inl more ↦ absurd (omega arith)
  | inr missed ↦ missed
]
