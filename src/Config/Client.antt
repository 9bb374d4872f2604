-- ===== src/Config/Client.antt =====
-- veil_core/linux_client_app.py: `LinuxClientConfig`, its environment for scripts, the paths of its
-- runtime files, and the command that gains privileges.
use veil_python_stack.Prelude.{
  String, Bool, true, false, Option, none, some, List, [], ◌∷◌, if◌then◌else◌, string_eq,
  or_default,
}
use veil_python_stack.Prelude.Dict.{Dict}
use veil_python_stack.Prelude.Int.{pos}
use veil_python_stack.Errors.{Result, ok, err, ◌>>=◌, runtime_error}
use veil_python_stack.Message.{Value, boolean, number, decimal, text, Json}
use veil_python_stack.Dataclass.{Class, Instance, construct, attribute}
use veil_python_stack.Config.{has, either, str_attribute, ensure_compatible}

-- `DEFAULT_CLIENT_PSK.hex()`
abbrev pub default_client_psk_hex : String
default_client_psk_hex = "abababababababababababababababababababababababababababababababab"

-- `LinuxClientConfig`
abbrev pub linux_client_config : Class
linux_client_config =
    ("server_host", some (text "vpn.example"))
    ∷ ("server_port", some (number (pos 4433)))
    ∷ ("client_name", some (text "veil-client"))
    ∷ ("client_id", some (text ""))
    ∷ ("psk_hex", some (text default_client_psk_hex))
    ∷ ("tunnel_mode", some (text "static"))
    ∷ ("tun_name", some (text "veilfull0"))
    ∷ ("tun_address", some (text "10.200.0.2/30"))
    ∷ ("tun_peer", some (text "10.200.0.1"))
    ∷ ("packet_mtu", some (number (pos 1300)))
    ∷ ("keepalive_interval", some (decimal (pos 100) 1))
    ∷ ("keepalive_timeout", some (decimal (pos 300) 1))
    ∷ ("reconnect", some (boolean true))
    ∷ ("auto_connect", some (boolean false))
    ∷ ("protocol_wrapper", some (text "none"))
    ∷ ("persona_preset", some (text "custom"))
    ∷ ("enable_http_handshake_emulation", some (boolean false))
    ∷ ("rotation_interval_seconds", some (number (pos 30)))
    ∷ ("handshake_timeout_ms", some (number (pos 5000)))
    ∷ ("session_idle_timeout_ms", some (number (pos 0)))
    ∷ ("transport_mtu", some (number (pos 1400)))
    ∷ ("suspend_conflicting_services", some (boolean false))
    ∷ []

-- `load_client_config`: `none` is a file that does not exist, and else its JSON object is given.
unfoldable pub load_client_config : Option (Dict String Value) → Result Instance
unfolding construct ensure_compatible
load_client_config raw =
    construct linux_client_config (or_default raw []) >>= λ c. ok (ensure_compatible c)

-- `shell_env`
unfoldable pub shell_env : Json → Instance → Dict String Value
unfolding attribute either has str_attribute
shell_env json c =
    ("SERVER_HOST", attribute "server_host" c)
    ∷ ("SERVER_PORT", text (str_attribute json "server_port" c))
    ∷ ("CLIENT_NAME", attribute "client_name" c)
    ∷ ("CLIENT_ID", either "client_id" "client_name" c)
    ∷ ("PSK_HEX", attribute "psk_hex" c)
    ∷ ("TUNNEL_MODE", attribute "tunnel_mode" c)
    ∷ ("TUN_NAME", attribute "tun_name" c)
    ∷ ("TUN_ADDR", attribute "tun_address" c)
    ∷ ("TUN_PEER", attribute "tun_peer" c)
    ∷ ("PACKET_MTU", text (str_attribute json "packet_mtu" c))
    ∷ ("KEEPALIVE_INTERVAL", text (str_attribute json "keepalive_interval" c))
    ∷ ("KEEPALIVE_TIMEOUT", text (str_attribute json "keepalive_timeout" c))
    ∷ ("PROTOCOL_WRAPPER", attribute "protocol_wrapper" c)
    ∷ ("PERSONA_PRESET", attribute "persona_preset" c)
    ∷ (
      "ENABLE_HTTP_HANDSHAKE_EMULATION",
      text (if has "enable_http_handshake_emulation" c then "1" else "0"),
    )
    ∷ ("ROTATION_INTERVAL_SECONDS", text (str_attribute json "rotation_interval_seconds" c))
    ∷ ("HANDSHAKE_TIMEOUT_MS", text (str_attribute json "handshake_timeout_ms" c))
    ∷ ("SESSION_IDLE_TIMEOUT_MS", text (str_attribute json "session_idle_timeout_ms" c))
    ∷ ("TRANSPORT_MTU", text (str_attribute json "transport_mtu" c))
    ∷ []

-- The tools that `LinuxClientEnvironment` found, and whether the process is root
pub record Environment : Type 0 where
  pub python3 : Option String
  pub pkexec : Option String
  pub sudo : Option String
  pub is_root : Bool

abbrev non_empty : Option String → Option String
non_empty none = none
non_empty (some s) = if string_eq.beq s "" then none else some s

abbrev first_of : Option String → Option String → Option String
first_of (some a) other = some a
first_of none other = other

-- `privilege_helper`
unfoldable pub privilege_helper : Environment → Option String
privilege_helper e = if e.is_root then none else first_of (non_empty e.pkexec) (non_empty e.sudo)

abbrev internal_command : String → String
internal_command action = if string_eq.beq action "up" then "internal-up" else "internal-down"

abbrev helped : Option String → List String → Result (List String)
helped none rest = err (runtime_error "Neither pkexec nor sudo is available for privileged actions")
helped (some helper) rest = ok (helper ∷ rest)

-- `build_action_command`; `executable` is `sys.executable`.
unfoldable pub build_action_command :
    (executable action config_path ctl_script_path : String) → Environment → Result (List String)
unfolding privilege_helper
build_action_command executable action config_path ctl_script_path e =
    let command =
      or_default (non_empty e.python3) executable
      ∷ ctl_script_path
      ∷ "--config"
      ∷ config_path
      ∷ internal_command action
      ∷ [] in
    if e.is_root then ok command else helped (privilege_helper e) command
