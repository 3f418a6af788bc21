-- ===== src/StateMachine.antt =====
-- The session's state machine (src/CwmpStateMachine.cpp, include/tr069/CwmpStateMachine.hpp).
pub mod Graph
use cpe_acs_connector_tr.Base.{Bool, true, false, ◌&&◌, ◌||◌, if◌then◌else◌, Bytes, codes}

pub data CwmpState : Type 0 where
  idle connecting inform_sent rpc_processing session_close : CwmpState

-- `==` of the enum.
abbrev pub is_state : CwmpState → CwmpState → Bool
is_state idle idle = true
is_state connecting connecting = true
is_state inform_sent inform_sent = true
is_state rpc_processing rpc_processing = true
is_state session_close session_close = true
is_state _ _ = false

-- The condition `valid` of `transition`.
valid : CwmpState → CwmpState → Bool
valid s next =
    (is_state s idle && is_state next connecting)
    || (is_state s connecting && is_state next inform_sent)
    || (is_state s inform_sent && (is_state next rpc_processing || is_state next session_close))
    || (is_state s rpc_processing && (is_state next rpc_processing || is_state next session_close))
    || (is_state s session_close && is_state next idle)

-- The new state, and whether the request was valid.
unfoldable pub transition : CwmpState → CwmpState → CwmpState × Bool
unfolding valid
transition s next = (if valid s next then next else s, valid s next)

abbrev pub reset : CwmpState → CwmpState
reset _ = idle

unfoldable pub to_string : CwmpState → Bytes
to_string idle = codes "IDLE"
to_string connecting = codes "CONNECTING"
to_string inform_sent = codes "INFORM_SENT"
to_string rpc_processing = codes "RPC_PROCESSING"
to_string session_close = codes "SESSION_CLOSE"
