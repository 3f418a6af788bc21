-- ===== src/ConnectionRequest/Lifecycle.antt =====
-- The server's socket over starts and stops (src/ConnectionRequestServer.cpp).
use mathlib.Core.Path.{subst}
use cpe_acs_connector_tr.Base.{
  ℕ, ◌^◌, ◌<◌, ◌≤◌, Bool, true, false, List, ◌∷◌, Option, none, some, ◌≡◌, inl, inr, refl, sym, ap,
  ◌∙◌, arith, Bool-cases, if◌then◌else◌, Bytes,
}
use cpe_acs_connector_tr.ConnectionRequest.Listener.{
  Sockets, Listener, u16, open_on, with_descriptor, start, closed, stop,
}

-- What the code relies on of the calls: the descriptors that are open, the last first, and the
-- address and port of a socket.
pub record Descriptors (S : Type 0) (sockets : Sockets S) : Type 0 where
  pub open_in : S → List ℕ
  pub bound_to : S → ℕ → Option (Bytes × ℕ)
  pub socket_opens :
      (s : S) (d : ℕ) → (sockets.socket s).0 ≡ some d → open_in (sockets.socket s).1 ≡ d ∷ open_in s
  pub socket_fails :
      (s : S) → (sockets.socket s).0 ≡ none → open_in (sockets.socket s).1 ≡ open_in s
  pub reuse_keeps : (s : S) (d : ℕ) → open_in (sockets.reuse_address s d) ≡ open_in s
  pub bind_keeps :
      (s : S) (d : ℕ) (address : Bytes) (port : ℕ)
      → open_in (sockets.bind s d address port).1 ≡ open_in s
  pub bind_binds :
      (s : S) (d : ℕ) (address : Bytes) (port : ℕ)
      → (sockets.bind s d address port).0 ≡ true
      → bound_to (sockets.bind s d address port).1 d ≡ some (address, port)
  pub listen_keeps :
      (s : S) (d : ℕ)
      → (open_in (sockets.listen s d).1 ≡ open_in s)
        × (bound_to (sockets.listen s d).1 d ≡ bound_to s d)
  pub shutdown_keeps : (s : S) (d : ℕ) → open_in (sockets.shutdown s d) ≡ open_in s
  pub close_closes :
      (s : S) (d : ℕ) (rest : List ℕ) → open_in s ≡ d ∷ rest → open_in (sockets.close s d) ≡ rest

-- A server that does not run.
abbrev pub IsStopped : Listener → Type 0
IsStopped l = (l.running ≡ false) × (l.listen_fd ≡ none) × (l.thread ≡ false)

module _ {S : Type 0} (sockets : Sockets S) (known : Descriptors S sockets) where
  open known use {open_in, bound_to}

  -- What a start leaves of a stopped server.
  pub data Started (l : Listener) (s : S) : Bool × Listener × S → Type 0 where
    refused :
        (l' : Listener) (s' : S) → l' ≡ l → open_in s' ≡ open_in s → Started l s (false, l', s')
    listens :
        (d : ℕ) (s' : S)
        → open_in s' ≡ d ∷ open_in s
        → bound_to s' d ≡ some (l.config.bind_address, u16 l.config.port)
        → Started l s (true, record l { running = true; listen_fd = some d; thread = true }, s')

  open_on-Started :
      (l : Listener) (s s0 : S) (d : ℕ)
      → l.listen_fd ≡ none
      → open_in s0 ≡ d ∷ open_in s
      → Started l s (open_on sockets l s0 d)
  unfolding open_on
  open_on-Started l s s0 d closed_yet opened =
      let address = l.config.bind_address in
      let port = u16 l.config.port in
      let s1 = sockets.reuse_address s0 d in
      let bound = sockets.bind s1 d address port in
      let listening = sockets.listen bound.1 d in
      let opened1 = known.reuse_keeps s0 d ∙ opened in
      let opened2 = known.bind_keeps s1 d address port ∙ opened1 in
      let opened3 = (known.listen_keeps bound.1 d).0 ∙ opened2 in
      let gives_up = λ (s' : S) (e : open_in s' ≡ d ∷ open_in s).
        refused (record l { listen_fd = none }) (sockets.close s' d)
          (ap (λ (fd : Option ℕ). record l { listen_fd = fd }) (sym closed_yet))
          (known.close_closes s' d (open_in s) e) in
      elim (Bool-cases (sockets.is_address address)) [
        | inr e ↦ rw e (gives_up s1 opened1)
        | inl e ↦ elim (Bool-cases bound.0) [
          | inr k ↦ rw (e, k) (gives_up bound.1 opened2)
          | inl k ↦ elim (Bool-cases listening.0) [
            | inr j ↦ rw (e, k, j) (gives_up listening.1 opened3)
            | inl j ↦
                let at = (known.listen_keeps bound.1 d).1 ∙ known.bind_binds s1 d address port k in
                rw (e, k, j) (listens d listening.1 opened3 at)
          ]
        ]
      ]

  with_descriptor-Started :
      (l : Listener) (s s' : S) (o : Option ℕ)
      → l.listen_fd ≡ none
      → sockets.socket s ≡ (o, s')
      → Started l s (with_descriptor sockets l (o, s'))
  with_descriptor-Started l s s' none closed_yet e =
      refused (record l { listen_fd = none }) s'
        (ap (λ (fd : Option ℕ). record l { listen_fd = fd }) (sym closed_yet))
        (rw e at (known.socket_fails s (ap (λ r. r.0) e)))
  with_descriptor-Started l s s' (some d) closed_yet e =
      open_on-Started l s s' d closed_yet (rw e at (known.socket_opens s d (ap (λ r. r.0) e)))

  -- A start of a stopped server either succeeds, with one more descriptor open, bound to the
  -- address of the configuration and the low 16 bits of its port, or it fails, and leaves the
  -- server and the open descriptors as they were, whichever call failed.
  pub start-Started : (l : Listener) (s : S) → IsStopped l → Started l s (start sockets l s)
  unfolding start
  start-Started l s (not_running, closed_yet, _) =
      elim l.running
          as (λ b.
            b ≡ false
            → Started l s
                (if b then (true, l, s) else with_descriptor sockets l (sockets.socket s))) [
                  | true ↦ λ h. cc
                  | false ↦ λ h.
                      with_descriptor-Started l s (sockets.socket s).1 (sockets.socket s).0
                        closed_yet refl
                ]
        not_running

  -- What a start that succeeded has made.
  abbrev Listens : Listener → S → Listener → S → Type 0
  Listens l s l' s' =
      (d : ℕ) × (l' ≡ record l { running = true; listen_fd = some d; thread = true })
      × (open_in s' ≡ d ∷ open_in s)
      × (bound_to s' d ≡ some (l.config.bind_address, u16 l.config.port))

  Started-Listens :
      (l : Listener) (s : S) {r : Bool × Listener × S}
      → Started l s r
      → r.0 ≡ true
      → Listens l s r.1 r.2
  Started-Listens l s (refused l2 s2 same e) h = cc
  Started-Listens l s (listens d s2 e b) h = (d, refl, e, b)

  start-Listens :
      (l l' : Listener) (s s' : S)
      → IsStopped l
      → start sockets l s ≡ (true, l', s')
      → Listens l s l' s'
  start-Listens l l' s s' stopped started =
      Started-Listens l s (subst (Started l s) started (start-Started l s stopped)) refl

  -- A stop behind a start that succeeded leaves the open descriptors as they were before the start,
  -- and a server that is stopped, with its configuration, so that it can be started again.
  pub stop-start :
      (l l' : Listener) (s s' : S)
      → IsStopped l
      → start sockets l s ≡ (true, l', s')
      → let (l'', s'') = stop sockets l' s' in
        (open_in s'' ≡ open_in s) × IsStopped l'' × (l''.config ≡ l.config)
  unfolding stop
  stop-start l l' s s' stopped started =
      let (d, made, opened, _) = start-Listens l l' s s' stopped started in
      let fd = ap (λ (x : Listener). x.listen_fd) made in
      (
        ap (λ (o : Option ℕ). open_in (closed sockets o s')) fd
            ∙ known.close_closes (sockets.shutdown s' d) d (open_in s)
                (known.shutdown_keeps s' d ∙ opened),
        (refl, refl, refl),
        ap (λ (x : Listener). x.config) made,
      )

  -- A server whose port is 65536 or more starts all the same, on a smaller port than the one that
  -- is configured.
  pub start-wraps :
      (l l' : Listener) (s s' : S)
      → IsStopped l
      → start sockets l s ≡ (true, l', s')
      → 2 ^ 16 ≤ l.config.port
      → (d port : ℕ) × (bound_to s' d ≡ some (l.config.bind_address, port)) × (port < l.config.port)
  start-wraps l l' s s' stopped started large =
      let (d, _, _, bound) = start-Listens l l' s s' stopped started in
      (d, u16 l.config.port, bound, omega arith)
