-- ===== src/Examples/Serving.antt =====
-- The server is installed and run, and a profile travels as a token.
use veil_python_stack.Prelude.{
  ℕ, ◌≡◌, refl, String, true, false, none, some, List, [], ◌∷◌, arith, nat_eq, string_eq, ◌==◌, All,
  or_default,
}
use veil_python_stack.Prelude.Dict.{Dict, insert, lookup}
use veil_python_stack.Errors.{Result, ok, err, eof_error, timeout_error, cancelled_error}
use veil_python_stack.Message.{Value, text, Json, object, fields}
use veil_python_stack.Dataclass.{Instance, has_field}
use veil_python_stack.Dataclass.Laws.{IsInstance}
use veil_python_stack.Text.Base64.Alphabet.{IsByte}
use veil_python_stack.Config.Profile.{client_connection_profile}
use veil_python_stack.Config.Server.{ServerConfig, server_client_config, linux_server_config}
use veil_python_stack.Config.Server.Typed.{IsServerConfig, AreClients}
use veil_python_stack.Config.Server.Clients.{IsFull}
use veil_python_stack.Config.Windows.{windows_client_config, load_windows_config}
use veil_python_stack.Config.Loaded.{loaded, load_windows_config_lem}
use veil_python_stack.Config.Merged.{insert-IsInstance}
use veil_python_stack.Config.Token.{sort_keys, to_json, to_import_token, from_import_token}
use veil_python_stack.Config.Token.RoundTrip.{from_import_token-to_import_token}
use veil_python_stack.Pool.{empty}
use veil_python_stack.Proxy.{ProxyServer}
use veil_python_stack.Proxy.TunConfig.{TunDevice}
use veil_python_stack.Proxy.Run.{Bridge, Awaits, tun_done, run, attempt, during}
use veil_python_stack.Proxy.Run.Tidy.{IsTidy, run-IsTidy}
use veil_python_stack.Proxy.Serve.{Happening, answered, refused, left, accept_loop, serve_forever}
use veil_python_stack.Proxy.Serve.Shutdown.{IsShutDown, serve_forever-IsShutDown}
use veil_python_stack.ServerApp.{
  ServerEnvironment, ServerFiles, detect_paths, install_server_assets,
}
use veil_python_stack.ServerApp.Install.{FitTogether, install_server_assets-FitTogether}
use veil_python_stack.Prelude.Int.{pos}
use veil_python_stack.Errors.{value_error}
use veil_python_stack.Message.{number, array, cons, nil}
use veil_python_stack.Text.{strip}
use veil_python_stack.Text.Base64.{
  encode, decode, decode_from, is_ascii, sextet, padded, rstrip_pads, size,
}
use veil_python_stack.Text.Quote.{quote}
use veil_python_stack.Config.Token.{sorted_insert, leb_text, drop_prefix}
use veil_python_stack.ServerApp.Control.{format_mapping}
use veil_python_stack.Examples.Tunnel.{net, a, json}
use veil_python_stack.Examples.Agents.{defaults, defaults-IsInstance}

abbrev keys : ℕ → String
keys n = "0123456789abcdef0123456789abcdef"

abbrev route : List String
route = "1.1.1.1" ∷ "dev" ∷ "eth0" ∷ []

abbrev old_windows : Dict String Value
old_windows =
    ("tun_name", text "LegacyTun")
    ∷ ("server_host", text "192.0.2.1")
    ∷ ("client_name", text "laptop")
    ∷ ("comment", text "old")
    ∷ []

host_is_field : has_field "server_host" windows_client_config ≡ true
unfolding has_field
host_is_field = refl

load_windows_config_example :
    (r : Instance) × (load_windows_config old_windows ≡ ok r)
    × IsInstance windows_client_config r
    × (lookup "server_host" r ≡ loaded old_windows "server_host")
load_windows_config_example = load_windows_config_lem old_windows "server_host" host_is_field

-- The host is reset, the name is kept.
old_windows_fields :
    (loaded old_windows "server_host" ≡ some (text "vpn.example"))
    × (loaded old_windows "client_name" ≡ some (text "laptop"))
unfolding loaded lookup
old_windows_fields = (refl, refl)

abbrev profile : Instance
profile = defaults client_connection_profile

-- A text format for this profile alone
abbrev profile_json : Json
profile_json = record {
  encode = λ v. 123 ∷ 125 ∷ [];
  decode = λ bs. ok (object (fields (sort_keys profile)));
  repr = λ v. "";
}

profile_bytes : All IsByte (to_json profile_json profile)
unfolding to_json
profile_bytes = (omega arith, (omega arith, (omega arith, tt)))

from_import_token-to_import_token_example :
    from_import_token profile_json (to_import_token profile_json profile) ≡ ok profile
from_import_token-to_import_token_example =
    from_import_token-to_import_token profile_json profile
      (defaults-IsInstance client_connection_profile) profile_bytes refl

abbrev server_config : ServerConfig
server_config = record {
  settings = insert "public_host" (text "vpn.example.org") (defaults linux_server_config);
  clients = defaults server_client_config ∷ [];
}

host_there : has_field "public_host" linux_server_config ≡ true
unfolding has_field
host_there = refl

server_config-IsServerConfig : IsServerConfig server_config
unfolding IsServerConfig AreClients
server_config-IsServerConfig = (
  insert-IsInstance linux_server_config "public_host" (text "vpn.example.org")
      (defaults linux_server_config) host_there (defaults-IsInstance linux_server_config),
  (defaults-IsInstance server_client_config, tt),
)

abbrev environment : ServerEnvironment
environment = record {
  executable = "/usr/bin/python3";
  python3 = some "/usr/bin/python3";
  ip = some "/usr/sbin/ip";
  iptables = none;
  systemctl = some "/usr/bin/systemctl";
  tun_exists = true;
  tun_readable = true;
  tun_writable = true;
  is_root = true;
}

abbrev no_files : ServerFiles
no_files = record {
  config = none;
  profiles = [];
  launcher = none;
  launcher_mode = 0;
  service = none;
}

abbrev installed : Result (Dict String Value) × ServerFiles
installed =
    install_server_assets (λ i. keys) route (detect_paths "/opt/veil") environment server_config
      no_files

abbrev answer : Dict String Value
answer =
    ("config_path", text "/etc/veil-vpn/server.json")
    ∷ ("client_profile_path", text "/var/lib/veil-vpn/client-profile.json")
    ∷ ("launcher_path", text "/usr/local/bin/veil-vpn-server")
    ∷ ("service_path", text "/etc/systemd/system/veil-vpn-server.service")
    ∷ []

installed_lem : installed ≡ (ok answer, installed.1)
unfolding install_server_assets has_field
installed_lem = refl

words-IsFull : All IsFull route
unfolding IsFull
words-IsFull = (refl, (refl, (refl, tt)))

key-IsFull : (k : ℕ) → IsFull (keys k)
unfolding IsFull
key-IsFull k = refl

install_server_assets-FitTogether_example :
    FitTogether "/var/lib/veil-vpn/client-profile.json" installed.1
install_server_assets-FitTogether_example =
    install_server_assets-FitTogether (λ i. keys) route (detect_paths "/opt/veil") environment
      server_config no_files answer installed.1 key-IsFull words-IsFull server_config-IsServerConfig
      installed_lem

abbrev device : TunDevice
device = record { name = "veil0"; is_closed = false; commands = []; fd_closes = 0 }

abbrev bridge : Bridge
bridge = record { connection = a; tun = device; tun_pump = none; vpn_pump = none }

abbrev awaits : Awaits
awaits = record {
  found = some (tun_done eof_error);
  gather_cancelled = true;
  tun_end = cancelled_error;
  vpn_end = cancelled_error;
  cancelled = λ n. n == 2;
  meanwhile = λ n c. c;
}

run-IsTidy_example :
    ((run net json (λ m. false) awaits bridge).0
      ≡ (attempt net json (λ m. false) awaits awaits.found (during awaits 0 bridge)).0)
    × IsTidy net json ((run net json (λ m. false) awaits bridge).1)
run-IsTidy_example = run-IsTidy net json (λ m. false) awaits bridge (λ m c h. h) refl refl

abbrev server : ProxyServer
server = record {
  routes = [];
  pool = empty (record { ip = 180879361; prefix = 24 });
  connections = [];
  written = [];
}

abbrev happenings : List Happening
happenings = answered a (ok a) ∷ refused timeout_error ∷ left 7 ∷ []

serve_forever-IsShutDown_example :
    ((serve_forever net json (λ s. []) none cancelled_error happenings device server).0
      ≡ err (or_default (accept_loop net json happenings ([], server)).0 cancelled_error))
    × IsShutDown net json
        (accept_loop net json happenings ([], server)).1.1
        (serve_forever net json (λ s. []) none cancelled_error happenings device server).1.0
        (serve_forever net json (λ s. []) none cancelled_error happenings device server).1.1
serve_forever-IsShutDown_example =
    serve_forever-IsShutDown net json (λ s. []) cancelled_error happenings device server

-- Tests of the texts
encode_man : encode (77 ∷ 97 ∷ 110 ∷ 251 ∷ []) ≡ "TWFu-w=="
unfolding encode
encode_man = refl

decode_man : decode (padded (strip (rstrip_pads "TWFu-w== "))) ≡ ok (77 ∷ 97 ∷ 110 ∷ 251 ∷ [])
unfolding decode decode_from is_ascii sextet padded rstrip_pads strip size
decode_man = refl

decode_short : decode "TWFuT" ≡ err (value_error "Invalid base64-encoded string")
unfolding decode decode_from is_ascii sextet
decode_short = refl

foreign_token :
    from_import_token profile_json "https://profile/e30"
    ≡ err (value_error "Unsupported profile token format")
unfolding from_import_token drop_prefix
foreign_token = refl

quote_space : quote "/opt/it's here" ≡ "'/opt/it'\"'\"'s here'"
unfolding quote
quote_space = refl

sorted_entries :
    sort_keys (("b", number (pos 1)) ∷ ("a", number (pos 2)) ∷ ("ab", number (pos 3)) ∷ [])
    ≡ (("a", number (pos 2)) ∷ ("ab", number (pos 3)) ∷ ("b", number (pos 1)) ∷ [])
unfolding sort_keys sorted_insert leb_text
sorted_entries = refl

nested_lines :
    format_mapping json "heading" (
      ("a", object (fields (("b", text "c") ∷ [])))
      ∷ ("d", array (cons (text "e") (cons (object (fields (("f", text "g") ∷ []))) nil)))
      ∷ [])
    ≡ "heading\na:\n  b: c\nd:\n  - e\n  -\n    f: g"
unfolding format_mapping
nested_lines = refl
