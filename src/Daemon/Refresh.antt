-- ===== src/Daemon/Refresh.antt =====
-- What a refresh of the configuration keeps.
use cpe_acs_connector_tr.Base.{
  Bool, true, false, not, none, some, ◌⊎◌, inl, inr, ◌≡◌, refl, sym, ◌∙◌, ap, arith, if◌then◌else◌,
  Bool-cases, is_empty,
}
use cpe_acs_connector_tr.Platform.{Platform}
use cpe_acs_connector_tr.Config.{DaemonConfig, same, read_config, read_log_level}
use cpe_acs_connector_tr.Config.Equality.{
  connection_request_equal_sound, connection_request_equal_refl, runtime_config_equal_sound,
}
use cpe_acs_connector_tr.Daemon.{
  Daemon, refresh_config, updated_config, connection_changed, config_changed,
  restart_connection_server,
}

same_sound : (a b : Bool) → same a b ≡ true → a ≡ b
same_sound true b h = sym h
same_sound false b h = ground arith

-- A server that listens has the configuration in force, and is wanted.
abbrev pub ServerFits : {S : Type 0} → Daemon S → Type 0
ServerFits d =
    (d.connection_server ≡ none)
    ⊎ ((d.connection_server ≡ some d.config.connection_request)
        × (d.config.connection_request_enable ≡ true))

module _ {S : Type 0} (p : Platform S) where
  config_changed_sound : (a b : DaemonConfig) → config_changed p false a b ≡ false → a ≡ b
  unfolding config_changed
  config_changed_sound a b h =
      runtime_config_equal_sound a b (ground arith)
        (same_sound a.bootstrap_done b.bootstrap_done (ground arith))
        (same_sound a.pending_reboot_event b.pending_reboot_event (ground arith))

  not_connection_changed :
      (a b : DaemonConfig)
      → connection_changed p a b ≡ false
      → (a.connection_request ≡ b.connection_request)
        × (a.connection_request_enable ≡ b.connection_request_enable)
  unfolding connection_changed
  not_connection_changed a b h = (
    connection_request_equal_sound a.connection_request b.connection_request (ground arith),
    same_sound a.connection_request_enable b.connection_request_enable (ground arith),
  )

  same_connection : (c : DaemonConfig) → connection_changed p c c ≡ false
  unfolding connection_changed
  same_connection c = ground (arith, connection_request_equal_refl c.connection_request)

  -- The daemon with the configuration that a refresh reads.
  abbrev updated : Daemon S → Daemon S
  updated d = record d { config = updated_config p false d; level = read_log_level p d.device }

  -- The three ways through a refresh.
  pub data Refresh (d : Daemon S) : Bool × Daemon S → Type 0 where
    unready : p.ready ≡ false → Refresh d (false, d)
    kept :
        connection_changed p (updated_config p false d) d.config ≡ false
        → Refresh d (config_changed p false (updated_config p false d) d.config, updated d)
    restarted :
        connection_changed p (updated_config p false d) d.config ≡ true
        → Refresh d (
          config_changed p false (updated_config p false d) d.config,
          restart_connection_server p (updated d),
        )

  refresh_config-Refresh : (d : Daemon S) → Refresh d (refresh_config p false d)
  unfolding refresh_config
  refresh_config-Refresh d = go p.ready refl _ refl
    where
      go :
          (ready : Bool)
          → p.ready ≡ ready
          → (changed : Bool) → connection_changed p (updated_config p false d) d.config ≡ changed
          → Refresh d (
              if not ready then (false, d) else (
                config_changed p false (updated_config p false d) d.config,
                if changed then restart_connection_server p (updated d) else updated d,
              ))
      go false e changed k = unready e
      go true e false k = kept k
      go true e true k = restarted k

  Refresh-unchanged :
      {d : Daemon S} {r : Bool × Daemon S}
      → Refresh d r
      → r.0 ≡ false
      → (r.1.config ≡ d.config) × (r.1.connection_server ≡ d.connection_server)
  Refresh-unchanged (unready e) h = (refl, refl)
  Refresh-unchanged {d} (kept k) h =
      (config_changed_sound (updated_config p false d) d.config h, refl)
  Refresh-unchanged {d} (restarted k) h =
      let e = config_changed_sound (updated_config p false d) d.config h in
      cc (k, ap (λ c. connection_changed p c d.config) e, same_connection d.config)

  -- A refresh that reports no change has changed nothing that the daemon acts on: the
  -- configuration, every member of it, and the server that listens are what they were.
  pub refresh_config-unchanged :
      (d : Daemon S)
      → (refresh_config p false d).0 ≡ false
      → ((refresh_config p false d).1.config ≡ d.config)
        × ((refresh_config p false d).1.connection_server ≡ d.connection_server)
  refresh_config-unchanged d = Refresh-unchanged (refresh_config-Refresh d)

  updated_config-acs_url :
      (d : Daemon S)
      → is_empty d.config.acs_url ≡ false
      → is_empty (updated_config p false d).acs_url ≡ false
  unfolding updated_config
  updated_config-acs_url d h =
      elim (Bool-cases (is_empty (read_config p d.device d.config).acs_url)) [
        | inl e ↦ rw (e, h) h
        | inr e ↦ rw e e
      ]

  Refresh-acs_url :
      {d : Daemon S} {r : Bool × Daemon S}
      → Refresh d r
      → is_empty d.config.acs_url ≡ false
      → is_empty r.1.config.acs_url ≡ false
  unfolding restart_connection_server
  Refresh-acs_url (unready e) h = h
  Refresh-acs_url {d} (kept k) h = updated_config-acs_url d h
  Refresh-acs_url {d} (restarted k) h = updated_config-acs_url d h

  -- A refresh while the daemon runs never replaces a URL by an empty one.
  pub refresh_config-acs_url :
      (d : Daemon S)
      → is_empty d.config.acs_url ≡ false
      → is_empty (refresh_config p false d).1.config.acs_url ≡ false
  refresh_config-acs_url d = Refresh-acs_url (refresh_config-Refresh d)

  restart_connection_server-ServerFits : (d : Daemon S) → ServerFits (restart_connection_server p d)
  unfolding restart_connection_server
  restart_connection_server-ServerFits d = ground arith

  Refresh-ServerFits :
      {d : Daemon S} {r : Bool × Daemon S} → Refresh d r → ServerFits d → ServerFits r.1
  Refresh-ServerFits (unready e) h = h
  Refresh-ServerFits {d} (kept k) h =
      let (server, enable) = not_connection_changed (updated_config p false d) d.config k in
      elim h [ inl e ↦ inl e | inr (e, wanted) ↦ inr (e ∙ ap some (sym server), enable ∙ wanted) ]
  Refresh-ServerFits {d} (restarted k) h = restart_connection_server-ServerFits (updated d)

  -- A refresh keeps the server in step with the configuration: if the server that listens, if
  -- any, had the configuration in force and was wanted, then so it is behind the refresh.
  pub refresh_config-ServerFits :
      (d : Daemon S) → ServerFits d → ServerFits (refresh_config p false d).1
  refresh_config-ServerFits d = Refresh-ServerFits (refresh_config-Refresh d)

  Refresh-frame :
      {d : Daemon S} {r : Bool × Daemon S}
      → Refresh d r
      → (r.1.flags ≡ d.flags) × (r.1.device ≡ d.device)
  unfolding restart_connection_server
  Refresh-frame (unready e) = (refl, refl)
  Refresh-frame (kept k) = (refl, refl)
  Refresh-frame (restarted k) = (refl, refl)

  -- A refresh raises and clears no request, and writes nothing to the device.
  pub refresh_config-frame :
      (d : Daemon S)
      → ((refresh_config p false d).1.flags ≡ d.flags)
        × ((refresh_config p false d).1.device ≡ d.device)
  refresh_config-frame d = Refresh-frame (refresh_config-Refresh d)
