-- ===== src/ConnectionRequest/Listener.antt =====
-- The life of the server's socket (src/ConnectionRequestServer.cpp, `start` and `stop`), over the
-- socket calls, which are an argument. `S` is the state of the system. Logging is left out.
use cpe_acs_connector_tr.Base.{
  ℕ, ◌%◌, ◌^◌, Bool, true, false, not, Option, none, some, if◌then◌else◌, Bytes,
}
use cpe_acs_connector_tr.Platform.{ConnectionRequestConfig}

pub record Sockets (S : Type 0) : Type 0 where
  -- `socket(AF_INET, SOCK_STREAM, 0)`: a descriptor, or none where it is negative.
  pub socket : S → Option ℕ × S
  pub reuse_address : S → ℕ → S
  -- `inet_pton(AF_INET, …) == 1`.
  pub is_address : Bytes → Bool
  -- Whether the call returned 0. The port is a number of 16 bits.
  pub bind : S → (descriptor : ℕ) → (address : Bytes) → (port : ℕ) → Bool × S
  pub listen : S → (descriptor : ℕ) → Bool × S
  pub shutdown : S → ℕ → S
  pub close : S → ℕ → S

-- The members `config_`, `running_` and `listenFd_`, with none for -1, and whether `thread_` runs.
pub record Listener : Type 0 where
  pub config : ConnectionRequestConfig
  pub running : Bool
  pub listen_fd : Option ℕ
  pub thread : Bool

abbrev pub u16 : ℕ → ℕ
u16 n = n % 2 ^ 16

module _ {S : Type 0} (sockets : Sockets S) where
  -- `close(listenFd_); listenFd_ = -1; return false;`
  abbrev pub give_up : Listener → S → ℕ → Bool × Listener × S
  give_up l s descriptor = (false, record l { listen_fd = none }, sockets.close s descriptor)

  -- From the descriptor on.
  unfoldable pub open_on : Listener → S → ℕ → Bool × Listener × S
  open_on l s0 descriptor =
      let s = sockets.reuse_address s0 descriptor in
      let (bound, s1) = sockets.bind s descriptor l.config.bind_address (u16 l.config.port) in
      let (listening, s2) = sockets.listen s1 descriptor in
      if not (sockets.is_address l.config.bind_address)
      then give_up l s descriptor
      else if not bound
      then give_up l s1 descriptor
      else if not listening
      then give_up l s2 descriptor
      else (true, record l { running = true; listen_fd = some descriptor; thread = true }, s2)

  abbrev pub with_descriptor : Listener → Option ℕ × S → Bool × Listener × S
  with_descriptor l (none, s) = (false, record l { listen_fd = none }, s)
  with_descriptor l (some descriptor, s) = open_on l s descriptor

  unfoldable pub start : Listener → S → Bool × Listener × S
  start l s = if l.running then (true, l, s) else with_descriptor l (sockets.socket s)

  abbrev pub closed : Option ℕ → S → S
  closed none s = s
  closed (some descriptor) s = sockets.close (sockets.shutdown s descriptor) descriptor

  -- The thread, which tests `running_`, is joined.
  unfoldable pub stop : Listener → S → Listener × S
  stop l s = (record l { running = false; listen_fd = none; thread = false }, closed l.listen_fd s)
