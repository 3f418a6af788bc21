-- ===== src/ConnectionRequest/Restart.antt =====
-- The replacement of the server (src/Tr069Daemon.cpp, `restartConnectionRequestServer`), over the
-- socket calls. Logging is left out.
pub mod Refined
use cpe_acs_connector_tr.Base.{Bool, true, false, not, Option, none, some, if◌then◌else◌}
use cpe_acs_connector_tr.Platform.{ConnectionRequestConfig}
use cpe_acs_connector_tr.ConnectionRequest.Listener.{Sockets, Listener, start, stop}

-- A server as its constructor leaves it.
abbrev pub new_listener : ConnectionRequestConfig → Listener
new_listener config = record { config = config; running = false; listen_fd = none; thread = false }

module _ {S : Type 0} (sockets : Sockets S) where
  -- The destructor.
  abbrev pub destroyed : Listener → S → S
  destroyed l s = (stop sockets l s).1

  -- `connectionServer_->stop(); connectionServer_.reset();`
  abbrev pub replaced : Option Listener → S → S
  replaced none s = s
  replaced (some l) s = let (l', s') = stop sockets l s in destroyed l' s'

  -- Behind `start` of the new server.
  abbrev pub kept_if_started : Bool × Listener × S → Option Listener × S
  kept_if_started (true, l, s) = (some l, s)
  kept_if_started (false, l, s) = (none, destroyed l s)

  unfoldable pub restart :
      Bool → ConnectionRequestConfig → Option Listener → S → Option Listener × S
  restart enable config server s =
      let s1 = replaced server s in
      let started = kept_if_started (start sockets (new_listener config) s1) in
      if not enable then (none, s1) else started
