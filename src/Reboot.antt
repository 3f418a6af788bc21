-- ===== src/Reboot.antt =====
-- The reboot (src/RebootHandler.cpp).
use cpe_acs_connector_tr.Base.{Bool, true, if◌then◌else◌, codes}
use cpe_acs_connector_tr.Shell.{Shell}

-- Whether the reboot is scheduled, and the state behind it.
unfoldable pub execute : {S : Type 0} → Shell S → (mock_mode : Bool) → S → Bool × S
execute shell mock_mode s =
    if mock_mode
    then (true, s)
    else shell.system s (codes "(sleep 1; /sbin/reboot) >/dev/null 2>&1 &")
