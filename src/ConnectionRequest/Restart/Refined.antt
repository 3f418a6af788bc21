-- ===== src/ConnectionRequest/Restart/Refined.antt =====
-- The replacement of the server against the daemon's view of it.
use mathlib.Core.Option
use cpe_acs_connector_tr.Base.{
  ℕ, Bool, true, List, ◌∷◌, Option, none, some, ◌≡◌, refl, ap, ◌∙◌, if◌then◌else◌, inl, inr,
  Bool-cases,
}
use cpe_acs_connector_tr.Platform.{ConnectionRequestConfig, Platform}
use cpe_acs_connector_tr.Daemon.{Daemon, restart_connection_server}
use cpe_acs_connector_tr.ConnectionRequest.Listener.{Sockets, Listener, u16, start, stop, closed}
use cpe_acs_connector_tr.ConnectionRequest.Lifecycle.{
  Descriptors, Started, refused, listens, start-Started,
}
use cpe_acs_connector_tr.ConnectionRequest.Restart.{
  new_listener, replaced, kept_if_started, restart,
}

module _ {S : Type 0} (sockets : Sockets S) (known : Descriptors S sockets) where
  open known use {open_in, bound_to}

  -- The server holds one descriptor more than `base`, bound to its address and port, or there is
  -- no server and no such descriptor.
  abbrev pub Holds : List ℕ → Option Listener → S → Type 0
  Holds base none s = open_in s ≡ base
  Holds base (some l) s =
      (d : ℕ) × (l.running ≡ true)
      × (l.listen_fd ≡ some d)
      × (open_in s ≡ d ∷ base)
      × (bound_to s d ≡ some (l.config.bind_address, u16 l.config.port))

  closed-open_in :
      (base : List ℕ) (s : S) (d : ℕ)
      → open_in s ≡ d ∷ base
      → open_in (closed sockets (some d) s) ≡ base
  closed-open_in base s d e =
      known.close_closes (sockets.shutdown s d) d base (known.shutdown_keeps s d ∙ e)

  replaced-Holds :
      (base : List ℕ) (server : Option Listener) (s : S)
      → Holds base server s
      → open_in (replaced sockets server s) ≡ base
  unfolding stop
  replaced-Holds base none s h = h
  replaced-Holds base (some l) s (d, _, fd, opened, _) =
      ap (λ (o : Option ℕ). open_in (closed sockets o s)) fd ∙ closed-open_in base s d opened

  -- The member behind a start, and what the daemon thinks of it.
  abbrev Kept : List ℕ → ConnectionRequestConfig → Bool → Option Listener × S → Type 0
  Kept base config started (server, s) =
      Holds base server s
      × ((if started then some config else none) ≡ Option.map (λ (l : Listener). l.config) server)

  kept_if_started-Kept :
      (base : List ℕ) (config : ConnectionRequestConfig) (s : S) {r : Bool × Listener × S}
      → open_in s ≡ base
      → Started sockets known (new_listener config) s r
      → Kept base config r.0 (kept_if_started sockets r)
  unfolding stop
  kept_if_started-Kept base config s e (refused l' s' same opened) =
      (ap (λ (l : Listener). open_in (closed sockets l.listen_fd s')) same ∙ opened ∙ e, refl)
  kept_if_started-Kept base config s e (listens d s' opened bound) =
      ((d, refl, refl, opened ∙ ap (λ ds. d ∷ ds) e, bound), refl)

  -- If the daemon's server, if any, holds one descriptor, bound to its address and port, then so it
  -- is behind a restart: the descriptor of the old server is closed, and where the new one cannot
  -- be started or is not wanted, none is left. The daemon's own view, the configuration of a
  -- server that listens, agrees with the member, where it takes the new server to listen just where
  -- `start` succeeds.
  pub restart-Holds :
      {P : Type 0} (p : Platform P) (d : Daemon P) (base : List ℕ) (server : Option Listener)
      (s : S)
      → Holds base server s
      → p.can_listen d.device d.config.connection_request
        ≡ (start sockets (new_listener d.config.connection_request) (replaced sockets server s)).0
      → let (server', s') =
          restart sockets d.config.connection_request_enable d.config.connection_request server s in
        Holds base server' s'
        × ((restart_connection_server p d).connection_server
            ≡ Option.map (λ (l : Listener). l.config) server')
  unfolding restart restart_connection_server
  restart-Holds p d base server s h agrees =
      let config = d.config.connection_request in
      let gone = replaced-Holds base server s h in
      let started =
        start-Started sockets known (new_listener config) (replaced sockets server s)
          (refl, refl, refl) in
      let kept = kept_if_started-Kept base config (replaced sockets server s) gone started in
      elim (Bool-cases d.config.connection_request_enable) [
        | inl e ↦ rw (e, agrees) kept
        | inr e ↦ rw e (gone, refl)
      ]
