-- ===== src/Config/Profile.antt =====
-- veil_core/provisioning.py: the profile that a server exports for a client, and keys in hexadecimal.
use veil_python_stack.Prelude.{
  ℕ, String, true, false, none, some, [], ◌∷◌, ltb, if◌then◌else◌, string_eq,
}
use veil_python_stack.Prelude.Dict.{Dict}
use veil_python_stack.Prelude.Int.{pos}
use veil_python_stack.Errors.{Result, ok, err, ◌>>=◌, value_error}
use veil_python_stack.Message.{Value, boolean, number, decimal, text}
use veil_python_stack.Dataclass.{Class, Instance, construct}

-- `ClientConnectionProfile`
abbrev pub client_connection_profile : Class
client_connection_profile =
    ("server_host", none)
    ∷ ("server_port", none)
    ∷ ("client_name", some (text "veil-client"))
    ∷ ("client_id", some (text ""))
    ∷ ("psk_hex", some (text ""))
    ∷ ("tunnel_mode", some (text "dynamic"))
    ∷ ("tun_name", some (text "veilfull0"))
    ∷ ("tun_address", some (text ""))
    ∷ ("tun_peer", some (text ""))
    ∷ ("packet_mtu", some (number (pos 1300)))
    ∷ ("keepalive_interval", some (decimal (pos 100) 1))
    ∷ ("keepalive_timeout", some (decimal (pos 300) 1))
    ∷ ("reconnect", some (boolean true))
    ∷ ("auto_connect", some (boolean true))
    ∷ ("protocol_wrapper", some (text "none"))
    ∷ ("persona_preset", some (text "custom"))
    ∷ ("enable_http_handshake_emulation", some (boolean false))
    ∷ ("rotation_interval_seconds", some (number (pos 30)))
    ∷ ("handshake_timeout_ms", some (number (pos 5000)))
    ∷ ("session_idle_timeout_ms", some (number (pos 0)))
    ∷ ("transport_mtu", some (number (pos 1400)))
    ∷ []

-- The keyword parameters of `export_client_profile`
abbrev pub export_parameters : Class
export_parameters =
    ("server_host", none)
    ∷ ("server_port", none)
    ∷ ("psk_hex", none)
    ∷ ("client_name", some (text "veil-client"))
    ∷ ("client_id", some (text ""))
    ∷ ("tunnel_mode", some (text "dynamic"))
    ∷ ("tun_name", some (text "veilfull0"))
    ∷ ("tun_address", some (text ""))
    ∷ ("tun_peer", some (text ""))
    ∷ ("packet_mtu", some (number (pos 1300)))
    ∷ ("keepalive_interval", some (decimal (pos 100) 1))
    ∷ ("keepalive_timeout", some (decimal (pos 300) 1))
    ∷ ("protocol_wrapper", some (text "none"))
    ∷ ("persona_preset", some (text "custom"))
    ∷ ("enable_http_handshake_emulation", some (boolean false))
    ∷ ("rotation_interval_seconds", some (number (pos 30)))
    ∷ ("handshake_timeout_ms", some (number (pos 5000)))
    ∷ ("session_idle_timeout_ms", some (number (pos 0)))
    ∷ ("transport_mtu", some (number (pos 1400)))
    ∷ []

-- `export_client_profile`: an unexpected or a missing argument is a TypeError.
unfoldable pub export_client_profile : Dict String Value → Result Instance
unfolding construct
export_client_profile arguments =
    construct export_parameters arguments >>= λ given. construct client_connection_profile given

-- `generate_psk_hex`, when `secrets.token_hex` gives this text
unfoldable pub generate_psk_hex : ℕ → (token_hex : String) → Result String
generate_psk_hex num_bytes token_hex =
    if ltb num_bytes 16 then err (value_error "PSK must be at least 16 bytes") else ok token_hex
