-- ===== src/Config/Server.antt =====
-- veil_core/linux_server_app.py: `LinuxServerConfig`, its clients, and the profile that it exports.
pub mod Typed
pub mod Clients
pub mod Settled
use veil_python_stack.Prelude.{
  ℕ, suc, String, true, false, Option, none, some, List, [], ◌∷◌, if◌then◌else◌, string_eq, ◌==◌,
}
use veil_python_stack.Prelude.Dict.{Dict, lookup}
use veil_python_stack.Prelude.Int.{pos}
use veil_python_stack.Errors.{Result, ok, err, ◌>>=◌, runtime_error, index_error}
use veil_python_stack.Message.{Value, boolean, number, decimal, text, is_text}
use veil_python_stack.Dataclass.{Class, Instance, construct, attribute, set_attribute}
use veil_python_stack.Config.{has, ensure_compatible}
use veil_python_stack.Config.Profile.{export_client_profile}

-- `LinuxServerClientConfig`
abbrev pub server_client_config : Class
server_client_config =
    ("client_id", some (text ""))
    ∷ ("client_name", some (text ""))
    ∷ ("psk_hex", some (text ""))
    ∷ ("enabled", some (boolean true))
    ∷ []

-- `LinuxServerConfig` without `clients`, which `ServerConfig` keeps
abbrev pub linux_server_config : Class
linux_server_config =
    ("bind_host", some (text "0.0.0.0"))
    ∷ ("bind_port", some (number (pos 4433)))
    ∷ ("public_host", some (text ""))
    ∷ ("public_interface", some (text ""))
    ∷ ("server_name", some (text "veil-server"))
    ∷ ("psk_hex", some (text ""))
    ∷ ("fallback_psk_hex", some (text ""))
    ∷ ("fallback_psk_policy", some (text "deny_always"))
    ∷ ("allow_legacy_unhinted", some (boolean false))
    ∷ ("allow_hinted_route_miss_global_fallback", some (boolean false))
    ∷ ("max_legacy_trial_decrypt_attempts", some (number (pos 8)))
    ∷ ("tun_name", some (text "veil0"))
    ∷ ("tun_address", some (text "10.200.0.1/24"))
    ∷ ("tun_peer", some (text ""))
    ∷ ("packet_mtu", some (number (pos 1300)))
    ∷ ("keepalive_interval", some (decimal (pos 100) 1))
    ∷ ("keepalive_timeout", some (decimal (pos 300) 1))
    ∷ ("protocol_wrapper", some (text "none"))
    ∷ ("persona_preset", some (text "custom"))
    ∷ ("enable_http_handshake_emulation", some (boolean false))
    ∷ ("rotation_interval_seconds", some (number (pos 30)))
    ∷ ("handshake_timeout_ms", some (number (pos 5000)))
    ∷ ("session_idle_timeout_ms", some (number (pos 0)))
    ∷ ("transport_mtu", some (number (pos 1400)))
    ∷ []

pub record ServerConfig : Type 0 where
  pub settings : Instance
  pub clients : List Instance

-- `self.name = self.name or value`
abbrev pub set_default : String → Value → Instance → Instance
set_default k v i = if has k i then i else set_attribute k v i

abbrev pub name_or_default : Instance → Value
name_or_default i = if has "client_name" i then attribute "client_name" i else text "veil-client"

abbrev pub with_id : Instance → Instance
with_id i = set_default "client_id" (name_or_default i) i

abbrev pub with_name : Instance → Instance
with_name i = set_default "client_name" (attribute "client_id" i) i

-- `LinuxServerClientConfig.ensure_defaults`, when `generate_psk_hex` gives this key
unfoldable pub ensure_client_defaults : (psk_hex : String) → Instance → Instance
unfolding has set_attribute attribute
ensure_client_defaults psk_hex i = set_default "psk_hex" (text psk_hex) (with_name (with_id i))

-- All clients; `keys n` is the n-th key that is generated, had each client wanted one.
unfoldable pub ensure_all_clients : (keys : ℕ → String) → ℕ → List Instance → List Instance
unfolding ensure_client_defaults
ensure_all_clients keys n [] = []
ensure_all_clients keys n (c ∷ cs) =
    ensure_client_defaults (keys n) c ∷ ensure_all_clients keys (suc n) cs

abbrev pub psk_default : (keys : ℕ → String) → List Instance → Instance → Instance
psk_default keys [] i = set_default "psk_hex" (text (keys 0)) i
psk_default keys (c ∷ cs) i = i

-- `words[words.index(name) + 1]`, if the name is there
unfoldable pub word_after : String → List String → Option (Result String)
word_after name [] = none
word_after name (w ∷ []) =
    if w == name then some (err (index_error "list index out of range")) else none
word_after name (w ∷ v ∷ ws) =
    let rest = word_after name (v ∷ ws) in if w == name then some (ok v) else rest

abbrev pub interface_of : Option (Result String) → Result String
interface_of none = err (runtime_error "Could not detect public interface")
interface_of (some r) = r

-- `autodetect_public_interface`, of the words that `ip route get` printed
unfoldable pub autodetect_public_interface : List String → Result String
unfolding word_after
autodetect_public_interface route = interface_of (word_after "dev" route)

abbrev pub with_interface : List String → Instance → Result Instance
with_interface route i =
    if has "public_interface" i
    then ok i
    else (autodetect_public_interface route >>= λ dev.
        ok (set_attribute "public_interface" (text dev) i))

-- `ensure_defaults`
unfoldable pub ensure_defaults :
    (keys : ℕ → String) (route : List String) → ServerConfig → Result ServerConfig
unfolding has set_attribute ensure_all_clients autodetect_public_interface ensure_compatible
ensure_defaults keys route c =
    with_interface route (psk_default keys c.clients c.settings) >>= λ settings. ok (record {
      settings = ensure_compatible settings;
      clients = ensure_all_clients keys 0 c.clients;
    })

-- `[client.ensure_defaults() for client in self.clients if client.enabled]`
unfoldable pub enabled_clients : (keys : ℕ → String) → ℕ → List Instance → List Instance
unfolding ensure_client_defaults has
enabled_clients keys n [] = []
enabled_clients keys n (c ∷ cs) =
    let rest = enabled_clients keys (suc n) cs in
    if has "enabled" c then ensure_client_defaults (keys n) c ∷ rest else rest

unfoldable pub client_with_id : String → List Instance → Option Instance
unfolding lookup
client_with_id id [] = none
client_with_id id (c ∷ cs) =
    let rest = client_with_id id cs in if is_text id (lookup "client_id" c) then some c else rest

abbrev or_no_client : Option Instance → Result (Option Instance)
or_no_client none = err (runtime_error "no enabled client found for client_id")
or_no_client (some c) = ok (some c)

abbrev pub pick : Option String → List Instance → Result (Option Instance)
pick id [] =
    err (runtime_error "at least one enabled client is required to export a client profile")
pick none (c ∷ cs) = ok (some c)
pick (some id) (c ∷ cs) = or_no_client (client_with_id id (c ∷ cs))

-- `_resolve_export_client`
unfoldable pub resolve_export_client :
    (keys : ℕ → String) → Option String → List Instance → Result (Option Instance)
unfolding enabled_clients client_with_id
resolve_export_client keys id [] = ok none
resolve_export_client keys id (c ∷ cs) = pick id (enabled_clients keys 0 (c ∷ cs))

abbrev of_client : String → Value → Option Instance → Value
of_client k default none = default
of_client k default (some c) = attribute k c

abbrev pub same_fields : List String → Instance → Dict String Value
same_fields [] i = []
same_fields (k ∷ ks) i = (k, attribute k i) ∷ same_fields ks i

-- The arguments of `export_client_profile` in `LinuxServerConfig.export_client_profile`
abbrev pub export_arguments : Instance → Option Instance → Dict String Value
export_arguments i client =
    ("server_host", attribute "public_host" i)
    ∷ ("server_port", attribute "bind_port" i)
    ∷ ("psk_hex", of_client "psk_hex" (attribute "psk_hex" i) client)
    ∷ ("client_name", of_client "client_name" (text "veil-client") client)
    ∷ ("client_id", of_client "client_id" (text "") client)
    ∷ ("tunnel_mode", text "dynamic")
    ∷ ("tun_name", text "veilfull0")
    ∷ ("tun_address", text "")
    ∷ ("tun_peer", text "")
    ∷ same_fields
        ("packet_mtu" ∷ "keepalive_interval" ∷ "keepalive_timeout" ∷ "protocol_wrapper"
          ∷ "persona_preset" ∷ "enable_http_handshake_emulation" ∷ "rotation_interval_seconds"
          ∷ "handshake_timeout_ms" ∷ "session_idle_timeout_ms" ∷ "transport_mtu" ∷ [])
        i

-- `LinuxServerConfig.export_client_profile`; that the enabled clients keep the defaults that they get
-- here is left out.
unfoldable pub export_profile : (keys : ℕ → String) → Option String → ServerConfig → Result Instance
unfolding has attribute resolve_export_client export_client_profile
export_profile keys id c =
    if has "public_host" c.settings
    then (resolve_export_client keys id c.clients >>= λ client.
        export_client_profile (export_arguments c.settings client))
    else err (runtime_error "public_host must be set before exporting a client profile")

abbrev pub construct_clients : List (Dict String Value) → Result (List Instance)
construct_clients [] = ok []
construct_clients (d ∷ ds) =
    let rest = construct_clients ds in
    construct server_client_config d >>= λ c. rest >>= λ cs. ok (c ∷ cs)

-- `load_server_config` of a file's settings and the entries of its "clients"
unfoldable pub load_server_config :
    (keys : ℕ → String) (route : List String)
    → Dict String Value
    → List (Dict String Value)
    → Result ServerConfig
unfolding construct ensure_defaults
load_server_config keys route raw clients = construct_clients clients >>= λ cs.
    construct linux_server_config raw >>= λ settings.
    ensure_defaults keys route (record { settings = settings; clients = cs })
