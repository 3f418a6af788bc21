-- ===== src/Logger.antt =====
-- The log (src/Logger.cpp, include/tr069/Logger.hpp). The time of a line, as `put_time` writes it, is
-- an argument.
use cpe_acs_connector_tr.Base.{
  ℕ, suc, List, [], ◌∷◌, ◌++◌, if◌then◌else◌, ltb, Bytes, codes, stream,
}
use cpe_acs_connector_tr.Config.{LogLevel, debug, info, warn, error}

-- `static_cast<int>(level)`.
unfoldable pub rank : LogLevel → ℕ
rank debug = 0
rank info = 1
rank warn = 2
rank error = 3

abbrev pub level_name : LogLevel → Bytes
level_name debug = codes "DEBUG"
level_name info = codes "INFO"
level_name warn = codes "WARN"
level_name error = codes "ERROR"

-- What is written to `std::cerr` while `level_` is `current`: a line or nothing.
unfoldable pub log : LogLevel → Bytes → LogLevel → Bytes → List Bytes
unfolding rank
log current now level message =
    if ltb (rank level) (rank current)
    then []
    else stream (now ∷ codes " [" ∷ level_name level ∷ codes "] " ∷ message ∷ codes "\n" ∷ []) ∷ []

-- Several messages of one level, the first at the time `now n`.
unfoldable pub log_all : LogLevel → (ℕ → Bytes) → LogLevel → ℕ → List Bytes → List Bytes
log_all current now level n [] = []
log_all current now level n (message ∷ messages) =
    log current (now n) level message ++ log_all current now level (suc n) messages
