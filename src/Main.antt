-- ===== src/Main.antt =====
-- The thread that waits for signals, in the build without ubus (src/main.cpp). Logging is left
-- out.
pub mod Signals
pub mod Ubus
use cpe_acs_connector_tr.Base.{Bool, true, false, List, [], ◌∷◌, ◌++◌}
use cpe_acs_connector_tr.Daemon.{Flags, request_stop, request_reload}

-- The signals of the set that is blocked: SIGINT, SIGTERM and SIGHUP.
pub data Signal : Type 0 where
  interrupt terminate hangup : Signal

-- The thread, on the signals that `sigwait` gives in turn: whether it has ended, and the flags.
unfoldable pub signal_thread : List Signal → Flags → Bool × Flags
signal_thread [] f = (false, f)
signal_thread (hangup ∷ signals) f = signal_thread signals (request_reload f)
signal_thread (_ ∷ signals) f = (true, request_stop f)

-- The signals until `join`: once `run` has returned, `main` sends a SIGTERM itself.
abbrev pub until_join : List Signal → List Signal
until_join signals = signals ++ terminate ∷ []
