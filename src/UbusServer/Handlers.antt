-- ===== src/UbusServer/Handlers.antt =====
-- The method calls, against the daemon.
use cpe_acs_connector_tr.Base.{
  ℕ, true, false, List, [], ◌∷◌, Option, none, some, ◌≡◌, ◌⊎◌, inl, inr, refl, arith, Bool-cases,
  Bytes, codes,
}
use cpe_acs_connector_tr.Platform.{Platform}
use cpe_acs_connector_tr.Daemon.{
  Daemon, Flags, WakeReason, raise, wakes, is_timed, wait_for_next_inform, request_reload,
  request_reconnect, request_inform_now,
}
use cpe_acs_connector_tr.Daemon
use cpe_acs_connector_tr.DataModel.{get}
use cpe_acs_connector_tr.Daemon.Status.{status}
use cpe_acs_connector_tr.Daemon.Waiting.{Requested, cleared, wait_serves_one, wait_goes_on}
use cpe_acs_connector_tr.UbusServer.{
  UbusServer, Method, reload, reconnect, inform_now, status_of, status_ok, call,
}

-- The methods that ask for something, with the reason of the wait that serves it.
pub data Asks : Method → WakeReason → Type 0 where
  asks_reload : Asks reload Daemon.reload
  asks_reconnect : Asks reconnect Daemon.reconnect
  asks_inform : Asks inform_now Daemon.inform_now

Asks-wakes : {m : Method} {r : WakeReason} → Asks m r → (f : Flags) → Requested r f → wakes f ≡ true
unfolding wakes
Asks-wakes asks_reload f h = ground arith
Asks-wakes asks_reconnect f h = ground arith
Asks-wakes asks_inform f h = ground arith

-- A wait that serves one request leaves the other.
served_or_pending :
    {m : Method} {r : WakeReason}
    → Asks m r
    → (r' : WakeReason) (f : Flags) → Requested r f
    → (r' ≡ r) ⊎ Requested r (cleared r' f)
served_or_pending a Daemon.stop f h = inr h
served_or_pending a Daemon.periodic f h = inr h
served_or_pending asks_reload Daemon.reload f h = inl refl
served_or_pending asks_reconnect Daemon.reload f h = inr h
served_or_pending asks_inform Daemon.reload f h = inr h
served_or_pending asks_reload Daemon.connection_request f h = inr h
served_or_pending asks_reconnect Daemon.connection_request f h = inr h
served_or_pending asks_inform Daemon.connection_request f h = inr h
served_or_pending asks_reload Daemon.reconnect f h = inr h
served_or_pending asks_reconnect Daemon.reconnect f h = inl refl
served_or_pending asks_inform Daemon.reconnect f h = inr h
served_or_pending asks_reload Daemon.inform_now f h = inr h
served_or_pending asks_reconnect Daemon.inform_now f h = inr h
served_or_pending asks_inform Daemon.inform_now f h = inl refl

module _ {S : Type 0} (p : Platform S) where
  -- A call returns OK only to a server that is registered.
  ok-instance :
      (pid : ℕ) (u : UbusServer) (m : Method) (d : Daemon S)
      → (call p pid u m d).0 ≡ status_ok
      → u.instance ≡ true
  unfolding call
  ok-instance pid u m d ok = elim (Bool-cases u.instance) [ inl e ↦ e | inr e ↦ cc ]

  call-Requested :
      (pid : ℕ) (u : UbusServer) {m : Method} {r : WakeReason} (during : Flags) (d : Daemon S)
      → Asks m r
      → u.instance ≡ true
      → Requested r (raise during (call p pid u m d).2.flags)
  unfolding call raise request_reload request_reconnect request_inform_now
  call-Requested pid u during d asks_reload e = rw e refl
  call-Requested pid u during d asks_reconnect e = rw e refl
  call-Requested pid u during d asks_inform e = rw e refl

  -- Where a call of `reload`, `reconnect` or `inform_now` returns OK just before the daemon's thread
  -- enters its wait, then, whatever other threads ask for before the wait tests its predicate, the
  -- wait ends, and it either serves this very request or leaves it there for a later wait.
  pub wait-call :
      (pid : ℕ) (u : UbusServer) (m : Method) (r : WakeReason) (during : Flags) (d : Daemon S)
      → Asks m r
      → (call p pid u m d).0 ≡ status_ok
      → (r' : WakeReason) × (d' : Daemon S) × (wait_for_next_inform p during (call p pid u m d).2
          ≡ some (r', d'))
        × ((r' ≡ r) ⊎ Requested r d'.flags)
  wait-call pid u m r during d asks ok =
      go (wait_for_next_inform p during (call p pid u m d).2) refl
    where
      asked : Daemon S
      asked = (call p pid u m d).2

      there : Requested r (raise during (call p pid u m d).2.flags)
      there = call-Requested pid u during d asks (ok-instance pid u m d ok)

      go :
          (o : Option (WakeReason × Daemon S))
          → wait_for_next_inform p during asked ≡ o
          → (r' : WakeReason) × (d' : Daemon S) × (o ≡ some (r', d'))
            × ((r' ≡ r) ⊎ Requested r d'.flags)
      go none e =
          let (asleep, _) = (wait_goes_on p during asked).0 e in
          let awake = Asks-wakes asks (raise during asked.flags) there in absurd cc
      go (some (r', d')) e =
          let (_, left) = wait_serves_one p during asked d' r' e in
          (r', d', refl, rw left (served_or_pending asks r' (raise during asked.flags) there))

  -- The reply of `status` shows no credentials: it is the same for any user names, passwords and
  -- certificate file in the configuration, and for two transformers that differ only in what they
  -- return when asked to reveal secrets.
  pub status_no_secrets :
      (p' : Platform S)
      → ((s : S) (paths : List Bytes)
          → p.api.get_parameter_values s paths false ≡ p'.api.get_parameter_values s paths false)
      → (pid : ℕ) (u : UbusServer) (d : Daemon S)
        (name password ca_file cr_name cr_password : Bytes)
      → let hidden = record d.config {
        acs_username = name;
        acs_password = password;
        ca_file = ca_file;
        connection_request = record d.config.connection_request {
          username = cr_name;
          password = cr_password;
        };
      } in
        (call p pid u status_of d).1 ≡ (call p' pid u status_of (record d { config = hidden })).1
  unfolding call status get
  status_no_secrets p' same_get pid u d name password ca_file cr_name cr_password =
      let path = codes "Device.ManagementServer.ConnectionRequestURL" in
      elim (Bool-cases u.instance) [
        | inl e ↦ rw (e, same_get d.device (path ∷ [])) refl
        | inr e ↦ rw e refl
      ]
