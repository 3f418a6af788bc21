-- ===== src/Daemon/Wakeup/Served.antt =====
-- The steps of the daemon's thread alone.
use cpe_acs_connector_tr.Base.{
  ℕ, suc, ◌+◌, ◌≤◌, Bool, true, false, Option, none, some, ◌≡◌, ◌≢◌, ◌⊎◌, inl, inr, refl, sym,
  arith, Bool-cases,
}
use mathlib.Core.Path.{subst}
use cpe_acs_connector_tr.Platform.{Platform}
use cpe_acs_connector_tr.Daemon.{Daemon, WakeReason, wakes, is_timed, check_flags}
use cpe_acs_connector_tr.Daemon.Waiting.{Requested, Serves, check_flags-Serves}
use cpe_acs_connector_tr.Daemon.Wakeup.{
  Phase, testing, blocking, asleep, checking, returned, System, Step, test_true, test_false, block,
  timeout, serve, spurious, wait_again, request, notify,
}

-- The steps of a wait that no other thread has part in, and that have a reason: a sleep ends at its
-- period alone.
abbrev pub is_own : {S : Type 0} {p : Platform S} {s t : System S} → Step p s t → Bool
is_own (test_true at w) = true
is_own (test_false at w) = true
is_own (block at) = true
is_own (spurious at) = false
is_own (timeout at timed) = true
is_own (serve r d at served) = true
is_own (wait_again r d at) = false
is_own (request r) = false
is_own (notify n more) = false

-- A number of such steps.
pub data Alone {S : Type 0} (p : Platform S) (s : System S) : ℕ → System S → Type 0 where
  none_yet : Alone p s 0 s
  one_more :
      {n : ℕ} {t u : System S}
      → Alone p s n t
      → (st : Step p t u) → (is_own st ≡ true)
      → Alone p s (suc n) u

-- How many are left at most.
abbrev left : Phase → ℕ
left testing = 4
left blocking = 3
left asleep = 2
left checking = 1
left (returned r) = 0

module _ {S : Type 0} (p : Platform S) where
  -- The wait has returned a reason that the flags ask for, or a next step is there.
  abbrev pub ReturnedOrGoesOn : System S → System S → Type 0
  ReturnedOrGoesOn s t =
      ((r : WakeReason) × (t.phase ≡ returned r) × Requested r s.daemon.flags)
      ⊎ ((u : System S) × (st : Step p t u) × (is_own st ≡ true))

  abbrev Kept : System S → ℕ → System S → Type 0
  Kept s n t =
      (n + left t.phase ≤ 4)
      × (((r : WakeReason) × (t.phase ≡ returned r) × Requested r s.daemon.flags)
          ⊎ ((t.daemon ≡ s.daemon) × ((r : WakeReason) → t.phase ≢ returned r)))

  checking-goes_on :
      (t : System S)
      → t.phase ≡ checking
      → is_timed t.daemon.config ≡ true
      → (u : System S) × (st : Step p t u) × (is_own st ≡ true)
  checking-goes_on t at timed =
      go (check_flags p t.daemon.flags t.daemon) refl (check_flags-Serves p t.daemon.flags t.daemon)
    where
      go :
          (o : Option (WakeReason × Daemon S))
          → check_flags p t.daemon.flags t.daemon ≡ o
          → Serves p t.daemon.flags (is_timed t.daemon.config) o
          → (u : System S) × (st : Step p t u) × (is_own st ≡ true)
      go none e (w, untimed) = absurd cc
      go (some (r, d)) e served = (_, serve r d at e, refl)

  goes_on :
      (t : System S)
      → is_timed t.daemon.config ≡ true
      → ((r : WakeReason) → t.phase ≢ returned r)
      → (u : System S) × (st : Step p t u) × (is_own st ≡ true)
  goes_on t timed inside = go t.phase refl
    where
      go :
          (phase : Phase)
          → t.phase ≡ phase
          → (u : System S) × (st : Step p t u) × (is_own st ≡ true)
      go testing at = elim (Bool-cases (wakes t.daemon.flags)) [
        | inl w ↦ (_, test_true at w, refl)
        | inr w ↦ (_, test_false at w, refl)
      ]
      go blocking at = (_, block at, refl)
      go asleep at = (_, timeout at timed, refl)
      go checking at = checking-goes_on t at timed
      go (returned r) at = absurd (inside r at)

  unmoved :
      (s t : System S) (n : ℕ)
      → ((r : WakeReason) → t.phase ≢ returned r)
      → Kept s n t
      → t.daemon ≡ s.daemon
  unmoved s t n inside (few, inl (r, e, asked)) = absurd (inside r e)
  unmoved s t n inside (few, inr (same, within)) = same

  serve-Requested :
      (s t : System S) (r : WakeReason) (d : Daemon S)
      → t.daemon ≡ s.daemon
      → check_flags p t.daemon.flags t.daemon ≡ some (r, d)
      → Requested r s.daemon.flags
  serve-Requested s t r d same served =
      let serves = rw served at (check_flags-Serves p t.daemon.flags t.daemon) in
      subst (λ (x : Daemon S). Requested r x.flags) same serves.0

  step-Kept :
      (s t u : System S) (n : ℕ) (st : Step p t u)
      → is_own st ≡ true
      → Kept s n t
      → Kept s (suc n) u
  step-Kept s t u n (spurious at) own h = absurd cc
  step-Kept s t u n (wait_again r d at) own h = absurd cc
  step-Kept s t u n (request r) own h = absurd cc
  step-Kept s t u n (notify m more) own h = absurd cc
  step-Kept s t u n (test_true at w) own h =
      (omega (arith, rw at at h.0), inr (unmoved s t n (λ r. λ e. cc) h, λ r. λ e. cc))
  step-Kept s t u n (test_false at w) own h =
      (omega (arith, rw at at h.0), inr (unmoved s t n (λ r. λ e. cc) h, λ r. λ e. cc))
  step-Kept s t u n (block at) own h =
      (omega (arith, rw at at h.0), inr (unmoved s t n (λ r. λ e. cc) h, λ r. λ e. cc))
  step-Kept s t u n (timeout at timed) own h =
      (omega (arith, rw at at h.0), inr (unmoved s t n (λ r. λ e. cc) h, λ r. λ e. cc))
  step-Kept s t u n (serve r d at served) own h =
      let same = unmoved s t n (λ r'. λ e. cc) h in
      (omega (arith, rw at at h.0), inl (r, refl, serve-Requested s t r d same served))

  few_left : (phase : Phase) → left phase ≤ 4
  few_left testing = omega arith
  few_left blocking = omega arith
  few_left asleep = omega arith
  few_left checking = omega arith
  few_left (returned r) = omega arith

  Alone-Kept :
      (s t : System S) (n : ℕ)
      → ((r : WakeReason) → s.phase ≢ returned r)
      → Alone p s n t
      → Kept s n t
  Alone-Kept s t _ inside none_yet = (omega (arith, few_left s.phase), inr (refl, inside))
  Alone-Kept s t _ inside (one_more {n = n} {t = t'} a st own) =
      step-Kept s t' t n st own (Alone-Kept s t' n inside a)

  -- Where a period is set, a wait returns: wherever the daemon's thread stands in it, and whatever
  -- was missed, if no other thread moves, no sleep ends for no reason and the period runs out, then
  -- whatever steps it makes, there are four at most, and until it has returned a reason that the
  -- flags ask for, a request if there is one, there is a next one.
  pub wait_returns :
      (s t : System S) (n : ℕ)
      → is_timed s.daemon.config ≡ true
      → ((r : WakeReason) → s.phase ≢ returned r)
      → Alone p s n t
      → (n ≤ 4) × ReturnedOrGoesOn s t
  wait_returns s t n timed inside a = go (Alone-Kept s t n inside a)
    where
      go : Kept s n t → (n ≤ 4) × ReturnedOrGoesOn s t
      go (few, inl returned_one) = (omega (arith, few), inl returned_one)
      go (few, inr (same, within)) = (
        omega (arith, few),
        inr (
            goes_on t (subst (λ (x : Daemon S). is_timed x.config ≡ true) (sym same) timed) within),
      )
