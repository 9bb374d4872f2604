-- ===== src/ServerApp/Status.antt =====
-- veil_core/linux_server_app.py, `read_server_status`, and `profile_summary` of
-- veil_core/provisioning.py. `lower` is `str.lower`.
use veil_python_stack.Prelude.{
  ℕ, String, Bool, true, false, ◌&&◌, ◌||◌, Option, none, some, [], ◌∷◌, ◌++◌, nat_eq, string_eq,
  ◌==◌, if◌then◌else◌,
}
use veil_python_stack.Prelude.Dict.{Dict, lookup}
use veil_python_stack.Errors.{Result, ok, ◌>>=◌}
use veil_python_stack.Message.{Value, null, boolean, text, object, Json, fields}
use veil_python_stack.Text.{strip}
use veil_python_stack.Catalog.Payload.{describe_payload}
use veil_python_stack.Linux.{Completed}
use veil_python_stack.Dataclass.{Instance, attribute}
use veil_python_stack.Config.{has}
use veil_python_stack.Config.Server.{ServerConfig, export_profile, same_fields}
use veil_python_stack.Config.Token.{to_import_token}
use veil_python_stack.ServerApp.{Paths, ServerFiles}

module _ (lower : String → String) (json : Json) where
  abbrev summary_of : Instance → Dict String Value → Dict String Value
  summary_of p protocol =
      same_fields
        ("server_host" ∷ "server_port" ∷ "client_name" ∷ "client_id" ∷ "tunnel_mode" ∷ "tun_name"
          ∷ "tun_address" ∷ "tun_peer" ∷ "packet_mtu" ∷ "protocol_wrapper" ∷ "persona_preset"
          ∷ "enable_http_handshake_emulation" ∷ [])
        p
      ++ (("protocol_details", object (fields protocol))
          ∷ (same_fields
                ("rotation_interval_seconds" ∷ "handshake_timeout_ms" ∷ "session_idle_timeout_ms"
                  ∷ "transport_mtu" ∷ "psk_hex" ∷ [])
                p
              ++ ("import_token", text (to_import_token json p)) ∷ []))

  -- `profile_summary`
  unfoldable pub profile_summary : Instance → Result (Dict String Value)
  unfolding describe_payload attribute to_import_token
  profile_summary p =
      describe_payload lower (attribute "protocol_wrapper" p) (attribute "persona_preset" p)
        (attribute "enable_http_handshake_emulation" p)
      >>= λ protocol. ok (summary_of p protocol)

  abbrev is_there {ℓ} : {A : Type ℓ} → Option A → Bool
  is_there none = false
  is_there (some a) = true

  -- Whether the service runs, of the answer to `systemctl is-active`
  unfoldable pub says_active : Option (Completed × Completed) → Bool
  unfolding strip
  says_active none = false
  says_active (some (active, enabled)) = active.returncode == 0 && strip active.stdout == "active"

  -- Whether the service starts with the system, of the answer to `systemctl is-enabled`
  unfoldable pub says_enabled : Option (Completed × Completed) → Bool
  unfolding strip
  says_enabled none = false
  says_enabled (some (active, enabled)) =
      enabled.returncode == 0
      && (strip enabled.stdout == "enabled"
          || (strip enabled.stdout == "static"
              || (strip enabled.stdout == "generated" || strip enabled.stdout == "alias")))

  abbrev status_payload :
      Paths → Option (Completed × Completed) → ServerFiles → Instance → Value → Dict String Value
  status_payload paths systemctl f s summary =
      ("installed", boolean (is_there f.config && (is_there f.launcher && is_there f.service)))
      ∷ ("service_active", boolean (says_active systemctl))
      ∷ ("service_enabled", boolean (says_enabled systemctl))
      ∷ (same_fields
            ("public_host" ∷ "bind_host" ∷ "bind_port" ∷ "public_interface" ∷ "server_name"
              ∷ "tun_name" ∷ "tun_address" ∷ "tun_peer" ∷ "packet_mtu" ∷ "keepalive_interval"
              ∷ "keepalive_timeout" ∷ "protocol_wrapper" ∷ "persona_preset"
              ∷ "enable_http_handshake_emulation" ∷ "rotation_interval_seconds"
              ∷ "handshake_timeout_ms" ∷ "session_idle_timeout_ms" ∷ "transport_mtu" ∷ [])
            s
          ++ (("config_path", text paths.config_path)
              ∷ ("client_profile_path", text paths.client_profile_path)
              ∷ (
                "client_profile_exists",
                boolean (is_there (lookup paths.client_profile_path f.profiles)),
              )
              ∷ ("launcher_path", text paths.launcher_path)
              ∷ ("service_path", text paths.service_path)
              ∷ ("client_profile_summary", summary)
              ∷ []))

  -- `read_server_status`; `systemctl` are the answers of that program, if it was found.
  unfoldable pub read_server_status :
      (keys : ℕ → String)
      → Paths
      → Option (Completed × Completed)
      → ServerFiles
      → ServerConfig
      → Result (Dict String Value)
  unfolding has lookup export_profile profile_summary says_active says_enabled attribute
  read_server_status keys paths systemctl f c =
      if has "public_host" c.settings
      then (export_profile keys none c >>= λ p. profile_summary p >>= λ summary.
          ok (status_payload paths systemctl f c.settings (object (fields summary))))
      else ok (status_payload paths systemctl f c.settings null)
