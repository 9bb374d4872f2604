-- ===== src/Examples/Agents.antt =====
-- The Windows agent is told to connect and to disconnect, the system's network is set up for it, and a
-- profile is imported.
use veil_python_stack.Prelude.{◌≡◌, refl, String, true, false, none, some, [], ◌∷◌, string_eq, ◌==◌}
use veil_python_stack.Prelude.Dict.{insert, lookup}
use veil_python_stack.Prelude.Int.{pos}
use veil_python_stack.Errors.{ok, err, runtime_error}
use veil_python_stack.Message.{null, text, Json, truthy, str_of, str_or}
use veil_python_stack.Dataclass.{has_field, Class, Instance, has_field, all_fields, fill, construct}
use veil_python_stack.Dataclass.Laws.{IsInstance}
use veil_python_stack.Config.{is_incompatible}
use veil_python_stack.Config.Profile.{client_connection_profile}
use veil_python_stack.Config.Client.{linux_client_config}
use veil_python_stack.Config.Windows.{windows_client_config}
use veil_python_stack.Config.Import.{import_profile}
use veil_python_stack.Config.Merged.{imported, insert-IsInstance, import_profile_lem}
use veil_python_stack.Windows.State.{Files, write_runtime_command}
use veil_python_stack.Windows.Agent.{
  Agent, Outside, new_agent, update_state, consume_command_if_present,
}
use veil_python_stack.Windows.Rounds.{round, meanwhile, command_written, start_agent}
use veil_python_stack.Windows.Tidy.{IsTidy, IsIdle}
use veil_python_stack.Windows.Invariant.{looped, happened, here, next, Reach-IsTidy}
use veil_python_stack.Windows.Commands.{commanded, round-IsIdle, consume-same_second}
use veil_python_stack.Message.{number, truthy}
use veil_python_stack.Windows.Network.{Windows, NetworkConfig, configure_wintun_network}
use veil_python_stack.Windows.Network.Routes.{TakenBack, configure-TakenBack}

abbrev pub defaults : Class → Instance
defaults [] = []
defaults ((k, none) ∷ cls) = (k, text "203.0.113.5") ∷ defaults cls
defaults ((k, some v) ∷ cls) = (k, v) ∷ defaults cls

pub defaults-IsInstance : (cls : Class) → IsInstance cls (defaults cls)
defaults-IsInstance [] = tt
defaults-IsInstance ((k, none) ∷ cls) = (refl, defaults-IsInstance cls)
defaults-IsInstance ((k, some v) ∷ cls) = (refl, defaults-IsInstance cls)

-- A profile that asks for a browser's websocket
abbrev websocket : Instance
websocket =
    insert "persona_preset" (text "browser_ws")
      (insert "protocol_wrapper" (text "websocket") (defaults client_connection_profile))

websocket-IsInstance : IsInstance client_connection_profile websocket
unfolding has_field
websocket-IsInstance =
    insert-IsInstance client_connection_profile "persona_preset" (text "browser_ws")
      (insert "protocol_wrapper" (text "websocket") (defaults client_connection_profile)) refl
      (insert-IsInstance client_connection_profile "protocol_wrapper" (text "websocket")
        (defaults client_connection_profile) refl (defaults-IsInstance client_connection_profile))

websocket_made_custom :
    imported "persona_preset" websocket (defaults linux_client_config) ≡ some (text "custom")
unfolding imported lookup truthy insert
websocket_made_custom = refl

import_profile_lem_example :
    (r : Instance) × (import_profile websocket (defaults linux_client_config) ≡ ok r)
    × IsInstance linux_client_config r
    × (lookup "persona_preset" r
        ≡ imported "persona_preset" websocket (defaults linux_client_config))
    × (is_incompatible r ≡ false)
import_profile_lem_example =
    import_profile_lem "persona_preset" websocket (defaults linux_client_config)
      websocket-IsInstance (defaults-IsInstance linux_client_config)

abbrev json : Json
json = record { encode = λ v. []; decode = λ b. err (runtime_error "no text"); repr = λ v. "" }

abbrev no_files : Files
no_files = record { command_file = none; state_file = none; pid_file = some 7 }

abbrev outside : String → Outside
outside now = record {
  now = now;
  json = json;
  config_file = none;
  new_client = ok tt;
  connect = ok (record {
    session_id = text "0x1";
    peer_name = text "server";
    peer_role = null;
    effective_packet_mtu = pos 1300;
    close_reason = none;
  });
  create = ok tt;
  configure = ok null;
  cleanup = ok tt;
}

abbrev first_second : String
first_second = "2025-01-01T00:00:01Z"

abbrev later : String
later = "2025-01-01T00:01:00Z"

abbrev config : Instance
config = defaults windows_client_config

abbrev fresh : Agent
fresh = start_agent (outside first_second) (new_agent 7 no_files)

-- The agent was told to connect and has connected.
abbrev connected : Agent
connected = (round (outside first_second) (commanded first_second "up" config fresh)).1

Reach-IsTidy_example : IsTidy connected
Reach-IsTidy_example = Reach-IsTidy (outside first_second) 7 no_files connected (
    next (next here (happened (command_written first_second "up" config) fresh))
      (looped (outside first_second) (commanded first_second "up" config fresh) refl))

config-built : construct windows_client_config config ≡ ok config
unfolding construct fill all_fields has_field lookup
config-built = refl

connected-later : (later == connected.last_command_ts) ≡ false
unfolding round consume_command_if_present meanwhile write_runtime_command lookup str_or truthy
    str_of construct fill all_fields has_field update_state start_agent
connected-later = refl

round-IsIdle_example :
    ((round (outside later) (commanded later "down" config connected)).0 ≡ ok tt)
    × IsIdle (round (outside later) (commanded later "down" config connected)).1
round-IsIdle_example =
    round-IsIdle (outside later) later config config connected refl connected-later config-built

fresh-new : (first_second == fresh.last_command_ts) ≡ false
unfolding start_agent update_state
fresh-new = refl

abbrev told : Agent
told =
    (consume_command_if_present (outside first_second) (commanded first_second "up" config fresh)).1

fresh-told :
    consume_command_if_present (outside first_second) (commanded first_second "up" config fresh)
    ≡ (ok tt, told)
unfolding consume_command_if_present meanwhile write_runtime_command lookup str_or truthy str_of
    construct fill all_fields has_field update_state start_agent
fresh-told = refl

consume-same_second_example :
    (consume_command_if_present (outside first_second) (commanded first_second "down" config told)
      ≡ (ok tt, commanded first_second "down" config told))
    × (told.should_be_connected ≡ true)
consume-same_second_example =
    consume-same_second (outside first_second) (outside first_second) first_second config config
      config fresh told fresh-new config-built fresh-told

-- A machine whose PowerShell always answers the same
abbrev windows : Windows
windows = record {
  has_shell = true;
  netsh = true;
  route = true;
  is_admin = true;
  answer = λ log. record { returncode = 0; stdout = "7" };
  clock = λ log. 0;
  loads = λ s. some (
      ("InterfaceAlias", text "Ethernet")
      ∷ ("InterfaceIndex", number (pos 3))
      ∷ ("NextHop", text "192.168.1.1")
      ∷ ("enabled", text "yes")
      ∷ []);
  resolve = λ host. ok "203.0.113.5";
  json = json;
}

abbrev network_config : NetworkConfig
network_config = record {
  server_host = "vpn.example.org";
  adapter_name = "VeilVPN";
  tun_ipv4 = ok ("10.200.0.2", 30);
  tun_peer = "10.200.0.1";
  packet_mtu = pos 1300;
  full_tunnel = true;
  disable_system_proxy = true;
  dns_servers = "1.1.1.1" ∷ [];
}

configure-TakenBack_example :
    TakenBack windows network_config [] (configure_wintun_network windows network_config [])
configure-TakenBack_example = configure-TakenBack windows network_config [] refl refl refl
