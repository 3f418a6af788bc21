-- ===== src/Shell.antt =====
-- The shell through which the daemon runs `uci` and `reboot`. It is not part of the repository:
-- its commands are an argument of the code. `S` is the state of the device.
use cpe_acs_connector_tr.Base.{Bool, Option, Bytes}

pub record Shell (S : Type 0) : Type 0 where
  -- `popen`, reading to the end, `pclose`: what the command wrote, and whether it exited with 0;
  -- none if it could not be started. The commands that the code reads from write text with no NUL
  -- and change nothing.
  pub popen : S → Bytes → Option (Bytes × Bool)
  -- `std::system`: whether the command was run and exited with 0.
  pub system : S → Bytes → Bool × S
  -- `access("/sbin/uci", X_OK) == 0`.
  pub has_sbin_uci : Bool
