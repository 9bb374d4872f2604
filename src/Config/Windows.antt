-- ===== src/Config/Windows.antt =====
-- veil_core/windows_client_app.py: `WindowsClientConfig` and how a configuration file of an older
-- version is read.
pub mod Entries
use veil_python_stack.Prelude.{
  String, Bool, true, false, ◌||◌, Option, none, some, List, [], ◌∷◌, if◌then◌else◌, string_eq,
}
use veil_python_stack.Prelude.Dict.{Dict, lookup, insert, merge}
use veil_python_stack.Prelude.Int.{pos}
use veil_python_stack.Errors.{Result, ok, err, ◌>>=◌}
use veil_python_stack.Message.{Value, boolean, number, decimal, text, array, cons, nil, is_text}
use veil_python_stack.Dataclass.{Class, Instance, construct, has_field, attribute}

-- `DEFAULT_CLIENT_PSK.hex()`
abbrev pub default_windows_psk_hex : String
default_windows_psk_hex = "1111111111111111111111111111111111111111111111111111111111111111"

-- `WindowsClientConfig`
abbrev pub windows_client_config : Class
windows_client_config =
    ("server_host", some (text "vpn.example"))
    ∷ ("server_port", some (number (pos 4433)))
    ∷ ("client_name", some (text "veil-client"))
    ∷ ("client_id", some (text ""))
    ∷ ("psk_hex", some (text default_windows_psk_hex))
    ∷ ("adapter_name", some (text "VeilVPN"))
    ∷ ("tun_address", some (text "10.200.0.2/30"))
    ∷ ("tun_peer", some (text "10.200.0.1"))
    ∷ ("packet_mtu", some (number (pos 1300)))
    ∷ ("keepalive_interval", some (decimal (pos 100) 1))
    ∷ ("keepalive_timeout", some (decimal (pos 300) 1))
    ∷ ("reconnect", some (boolean true))
    ∷ ("auto_connect", some (boolean false))
    ∷ ("full_tunnel", some (boolean true))
    ∷ ("disable_system_proxy", some (boolean true))
    ∷ ("dns_servers", some (array (cons (text "1.1.1.1") (cons (text "1.0.0.1") nil))))
    ∷ ("protocol_wrapper", some (text "none"))
    ∷ ("persona_preset", some (text "custom"))
    ∷ []

-- `raw["adapter_name"] = raw["tun_name"]`, if only the latter is there
abbrev pub renamed : Option Value → Option Value → Dict String Value → Dict String Value
renamed none (some v) raw = insert "adapter_name" v raw
renamed none none raw = raw
renamed (some a) name raw = raw

-- The entries whose key is a field
unfoldable pub known_entries : Class → Dict String Value → Dict String Value
known_entries cls [] = []
known_entries cls ((k, v) ∷ d) =
    let rest = known_entries cls d in if has_field k cls then (k, v) ∷ rest else rest

-- `_looks_like_legacy_placeholder_config`
unfoldable pub looks_like_legacy_placeholder_config : Instance → Bool
unfolding lookup
looks_like_legacy_placeholder_config c =
    is_text "LegacyTun" (lookup "adapter_name" c)
    || (is_text "10.0.0.2/30" (lookup "tun_address" c) || is_text "10.0.0.1" (lookup "tun_peer" c))

-- The fields that a configuration of an older version gets anew
abbrev pub reset_fields : List String
reset_fields =
    "server_host" ∷ "server_port" ∷ "psk_hex" ∷ "adapter_name" ∷ "tun_address" ∷ "tun_peer"
    ∷ "packet_mtu" ∷ "keepalive_interval" ∷ "keepalive_timeout" ∷ "protocol_wrapper"
    ∷ "persona_preset" ∷ []

unfoldable pub entries_of : List String → Instance → Dict String Value
unfolding attribute
entries_of [] i = []
entries_of (k ∷ ks) i = (k, attribute k i) ∷ entries_of ks i

abbrev pub defaults_into : Instance → Result Instance → Result Instance
defaults_into c (ok defaults) =
    construct windows_client_config (merge c (entries_of reset_fields defaults))
defaults_into c (err e) = err e

abbrev pub upgrade : Instance → Result Instance
upgrade c =
    if looks_like_legacy_placeholder_config c
    then defaults_into c (construct windows_client_config [])
    else ok c

-- `load_client_config` of an existing file's JSON object; what is saved again is what is returned.
unfoldable pub load_windows_config : Dict String Value → Result Instance
unfolding construct known_entries looks_like_legacy_placeholder_config entries_of merge lookup
load_windows_config raw =
    construct windows_client_config (
      known_entries windows_client_config
        (renamed (lookup "adapter_name" raw) (lookup "tun_name" raw) raw))
    >>= upgrade
