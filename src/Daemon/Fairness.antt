-- ===== src/Daemon/Fairness.antt =====
-- Waits in a row (src/Tr069Daemon.cpp, `waitForNextInform`).
use cpe_acs_connector_tr.Base.{
  ℕ, suc, ◌+◌, ◌≤◌, Bool, true, false, List, [], ◌∷◌, none, some, ◌≡◌, ◌≢◌, ◌⊎◌, inl, inr, refl, ap,
  arith, length,
}
use cpe_acs_connector_tr.Platform.{Platform}
use cpe_acs_connector_tr.Daemon.{
  Daemon, Flags, WakeReason, stop, periodic, connection_request, reload, reconnect, inform_now,
  raise, wakes, wait_for_next_inform,
}
use cpe_acs_connector_tr.Daemon.Waiting.{Requested, cleared, wait_serves_one, wait_goes_on}

-- The requests that only a wait serves. A reload is also dropped by the refresh behind a session.
pub data Lasting : WakeReason → Type 0 where
  lasts_connection : Lasting connection_request
  lasts_reconnect : Lasting reconnect
  lasts_inform : Lasting inform_now

-- What a round between two waits does to the flags, where no other thread raises any.
abbrev pub Settles : Flags → Flags → Type 0
Settles f g = (g ≡ f) ⊎ (g ≡ record f { reload_requested = false })

-- Some waits in a row with their reasons, with rounds in between, in which no other thread asks
-- for anything that is not asked for already.
pub data Waits {S : Type 0} (p : Platform S) : Daemon S → List WakeReason → Type 0 where
  nothing_more : (d : Daemon S) → Waits p d []
  one_wait :
      {r : WakeReason} {rs : List WakeReason} (during : Flags) (d d1 d2 : Daemon S)
      → raise during d.flags ≡ d.flags
      → wait_for_next_inform p during d ≡ some (r, d1)
      → Settles d1.flags d2.flags
      → Waits p d2 rs
      → Waits p d (r ∷ rs)

abbrev pub Among : WakeReason → List WakeReason → Type 0
Among r [] = ⊥
Among r (r' ∷ rs) = (r' ≡ r) ⊎ Among r rs

abbrev one_if : Bool → ℕ
one_if true = 1
one_if false = 0

-- How many requests are there.
abbrev pub pending : Flags → ℕ
pending f =
    one_if f.connection_requested
    + (one_if f.reconnect_requested + (one_if f.inform_now_requested + one_if f.reload_requested))

-- Behind a wait that served another request, the request is there, with one less to wait for.
abbrev IsNearer : WakeReason → Flags → Flags → Type 0
IsNearer r f g = Requested r g × (suc (pending g) ≡ pending f) × (g.stop ≡ false)

cleared-IsNearer :
    {r : WakeReason}
    → Lasting r
    → (r' : WakeReason) (f : Flags) → Requested r f
    → Requested r' f
    → f.stop ≡ false
    → (r' ≡ r) ⊎ IsNearer r f (cleared r' f)
unfolding wakes
cleared-IsNearer l stop f h k s = cc
cleared-IsNearer lasts_connection periodic f h k s = absurd (ground arith)
cleared-IsNearer lasts_reconnect periodic f h k s = absurd (ground arith)
cleared-IsNearer lasts_inform periodic f h k s = absurd (ground arith)
cleared-IsNearer lasts_connection connection_request f h k s = inl refl
cleared-IsNearer lasts_reconnect connection_request f h k s = inr (h, rw k (omega arith), s)
cleared-IsNearer lasts_inform connection_request f h k s = inr (h, rw k (omega arith), s)
cleared-IsNearer lasts_connection reload f h k s = inr (h, rw k (omega arith), s)
cleared-IsNearer lasts_reconnect reload f h k s = inr (h, rw k (omega arith), s)
cleared-IsNearer lasts_inform reload f h k s = inr (h, rw k (omega arith), s)
cleared-IsNearer lasts_connection reconnect f h k s = inr (h, rw k (omega arith), s)
cleared-IsNearer lasts_reconnect reconnect f h k s = inl refl
cleared-IsNearer lasts_inform reconnect f h k s = inr (h, rw k (omega arith), s)
cleared-IsNearer lasts_connection inform_now f h k s = inr (h, rw k (omega arith), s)
cleared-IsNearer lasts_reconnect inform_now f h k s = inr (h, rw k (omega arith), s)
cleared-IsNearer lasts_inform inform_now f h k s = inl refl

Lasting-pending : {r : WakeReason} → Lasting r → (f : Flags) → Requested r f → 1 ≤ pending f
Lasting-pending lasts_connection f h = rw h (omega arith)
Lasting-pending lasts_reconnect f h = rw h (omega arith)
Lasting-pending lasts_inform f h = rw h (omega arith)

Settles-stop : {f g : Flags} → Settles f g → f.stop ≡ false → g.stop ≡ false
Settles-stop (inl e) s = rw e s
Settles-stop (inr e) s = rw e s

Settles-Requested :
    {r : WakeReason} {f g : Flags} → Lasting r → Settles f g → Requested r f → Requested r g
Settles-Requested l (inl e) h = rw e h
Settles-Requested lasts_connection (inr e) h = rw e h
Settles-Requested lasts_reconnect (inr e) h = rw e h
Settles-Requested lasts_inform (inr e) h = rw e h

Settles-pending : {f g : Flags} → Settles f g → pending g ≤ pending f
Settles-pending (inl e) = rw e (omega arith)
Settles-pending (inr e) = rw e (omega arith)

one_if_at_most : (b : Bool) → one_if b ≤ 1
one_if_at_most true = omega arith
one_if_at_most false = omega arith

pending_at_most : (f : Flags) → pending f ≤ 4
pending_at_most f =
    let first = one_if_at_most f.connection_requested in
    let second = one_if_at_most f.reconnect_requested in
    let third = one_if_at_most f.inform_now_requested in
    let fourth = one_if_at_most f.reload_requested in omega arith

module _ {S : Type 0} (p : Platform S) where
  Waits-Among :
      {d : Daemon S} {rs : List WakeReason} {r : WakeReason}
      → Waits p d rs
      → Lasting r
      → Requested r d.flags
      → d.flags.stop ≡ false
      → pending d.flags ≤ length rs
      → Among r rs
  Waits-Among (nothing_more d) l h s few =
      let one = Lasting-pending l d.flags h in absurd (omega arith)
  Waits-Among (one_wait during d d1 d2 same waited settles later_waits) l h s few =
      let (asked, left) = wait_serves_one p during d d1 _ waited in
      elim (cleared-IsNearer l _ d.flags h (rw same at asked) s) [
        | inl e ↦ inl e
        | inr (h1, nearer, s1) ↦
            let left' = rw same at left in
            let fewer = Settles-pending settles in
            let served = ap pending left' in
            inr (
              Waits-Among later_waits l (Settles-Requested l settles (rw left' h1))
                (Settles-stop settles (rw left' s1)) (omega arith))
      ]

  Lasting-waits :
      {r : WakeReason}
      → Lasting r
      → (during : Flags) (d : Daemon S) → Requested r d.flags
      → wait_for_next_inform p during d ≢ none
  unfolding raise wakes
  Lasting-waits lasts_connection during d h =
      λ e. let (asleep, _) = (wait_goes_on p during d).0 e in ground arith
  Lasting-waits lasts_reconnect during d h =
      λ e. let (asleep, _) = (wait_goes_on p during d).0 e in ground arith
  Lasting-waits lasts_inform during d h =
      λ e. let (asleep, _) = (wait_goes_on p during d).0 e in ground arith

  -- No request waits for ever. Where no stop is asked for and a connection request, a reconnect or
  -- an immediate Inform is, the wait returns; and of any four waits in a row, with rounds in
  -- between in which no other thread asks for anything new, one serves that request, whatever else
  -- is there.
  pub served_in_four :
      (d : Daemon S) (during : Flags) (r r1 r2 r3 r4 : WakeReason)
      → Lasting r
      → Requested r d.flags
      → d.flags.stop ≡ false
      → Waits p d (r1 ∷ r2 ∷ r3 ∷ r4 ∷ [])
      → (wait_for_next_inform p during d ≢ none) × Among r (r1 ∷ r2 ∷ r3 ∷ r4 ∷ [])
  served_in_four d during r r1 r2 r3 r4 l h s waits =
      (Lasting-waits l during d h, Waits-Among waits l h s (pending_at_most d.flags))
