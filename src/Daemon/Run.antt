-- ===== src/Daemon/Run.antt =====
-- The daemon from its construction to its end (src/Tr069Daemon.cpp, the constructor and `run`).
pub mod Ending
use cpe_acs_connector_tr.Base.{
  ℕ, Bool, true, not, List, [], Option, none, some, if◌then◌else◌, Bytes, codes, is_empty,
}
use cpe_acs_connector_tr.Platform.{Platform}
use cpe_acs_connector_tr.Daemon.{Daemon, refresh_config}
use cpe_acs_connector_tr.Daemon.Loop.{Inputs, Next, finish, round_with, rounds, start}

abbrev pub set_or : Option Bytes → Bytes → Bytes
set_or none fallback = fallback
set_or (some value) fallback = if not (is_empty value) then value else fallback

-- What `run` returns, and the daemon then; or that the inputs are used up.
pub data Exit (S : Type 0) : Type 0 where
  returned : ℕ → Daemon S → Exit S
  going_on : List Bytes → Daemon S → Exit S

-- Behind the loop: `connectionServer_->stop()`.
abbrev pub ended : {S : Type 0} → Option (Next S) → Option (Exit S)
ended none = none
ended (some (finish d)) = some (returned 0 (record d { connection_server = none }))
ended (some (round_with events d)) = some (going_on events d)

module _ {S : Type 0} (p : Platform S) where
  unfoldable pub environment_or : Bytes → Bytes → Bytes
  environment_or name fallback = set_or (p.getenv name) fallback

  -- The script and the map with which the constructor makes the transformer.
  unfoldable pub transformer_paths : Bytes × Bytes
  unfolding environment_or
  transformer_paths = (
    environment_or (codes "TR69_TRANSFORMER_SCRIPT") (codes "/usr/lib/tr69d/transformer.lua"),
    environment_or (codes "TR69_DEVICE_MAP") (codes "/etc/transformer/maps/Device.map"),
  )

  abbrev pub after_start : List Inputs → Daemon S → Option (List Bytes × Daemon S) → Option (Exit S)
  after_start inputs d none = some (returned 1 d)
  after_start inputs d (some (events, d')) = ended (rounds p inputs events d')

  -- `run`; none where the loop waits for what the inputs do not hold.
  unfoldable pub run : List Inputs → Daemon S → Option (Exit S)
  run inputs d = after_start inputs (refresh_config p true d).1 (start p d)
