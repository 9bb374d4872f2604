-- ===== src/Windows/Agent.antt =====
-- desktop/veil_vpn_agent.py: `WindowsVpnAgent`.
use veil_python_stack.Prelude.{
  ℕ, String, Bool, true, false, Option, none, some, List, [], ◌∷◌, if◌then◌else◌, string_eq, ◌==◌,
  or_default,
}
use veil_python_stack.Prelude.Dict.{Dict, lookup, merge}
use veil_python_stack.Prelude.Int.{ℤ, pos}
use veil_python_stack.Errors.{Result, ok, err, type_error}
use veil_python_stack.Message.{
  Value, null, boolean, number, decimal, text, array, object, dict, Json, str_of, str_or, is_text,
}
use veil_python_stack.Text.{cat}
use veil_python_stack.Dataclass.{Instance, construct, attribute}
use veil_python_stack.Config.Windows.{windows_client_config, load_windows_config}
use veil_python_stack.Windows.State.{Files, read_runtime_state, write_runtime_state}

-- What the agent uses of a `VpnConnection`; it is closed when there is a reason.
pub record Link : Type 0 where
  pub session_id : Value
  pub peer_name : Value
  pub peer_role : Value
  pub effective_packet_mtu : ℤ
  pub close_reason : Option String

-- Calls of the connection, the transport, the Wintun adapter and the network configuration
pub data Call : Type 0 where
  transport_start transport_stop wintun_open wintun_close network_configure network_cleanup : Call
  connection_close : String → Call

-- The object, with the files that it shares with the commands. The two pump tasks are created and
-- cancelled together.
pub record Agent : Type 0 where
  pub files : Files
  pub has_client : Bool
  pub connection : Option Link
  pub active_config : Option Instance
  pub should_be_connected : Bool
  pub last_command_ts : String
  pub has_wintun : Bool
  pub network_state : Option Value
  pub has_pumps : Bool
  pub pid : ℕ
  pub calls : List Call

-- What the world gives in one round: the time, the JSON text format, the configuration file, if it
-- exists, and the outcome of `VpnClient(...)`, of connecting, of `create_wintun_session`, of
-- `configure_wintun_network` and of `cleanup_wintun_network`. An exception here is an `Exception`: a
-- cancellation, which `except Exception` lets pass and which ends the loop, is left out.
pub record Outside : Type 0 where
  pub now : String
  pub json : Json
  pub config_file : Option (Dict String Value)
  pub new_client : Result (Unit {0})
  pub connect : Result Link
  pub create : Result (Unit {0})
  pub configure : Result Value
  pub cleanup : Result (Unit {0})

-- `__init__`
abbrev pub new_agent : ℕ → Files → Agent
new_agent pid files = record {
  files = files;
  has_client = false;
  connection = none;
  active_config = none;
  should_be_connected = false;
  last_command_ts = "";
  has_wintun = false;
  network_state = none;
  has_pumps = false;
  pid = pid;
  calls = [];
}

-- The state that `_update_state` reads, with the entries that it always writes
abbrev pub refreshed : Outside → Agent → Dict String Value
refreshed o a =
    let state = read_runtime_state a.files in
    merge state (
      ("installed", boolean true)
      ∷ ("running", boolean true)
      ∷ ("connected", or_default (lookup "connected" state) (boolean false))
      ∷ ("pid", number (pos a.pid))
      ∷ ("mode", text "windows-agent")
      ∷ ("updated_at", text o.now)
      ∷ [])

-- `_update_state`
unfoldable pub update_state : Outside → Dict String Value → Agent → Agent
unfolding lookup merge
update_state o overrides a = record a {
  files = write_runtime_state (merge (refreshed o a) overrides) a.files;
}

abbrev pub log_call : Call → Agent → Agent
log_call c a = record a { calls = c ∷ a.calls }

abbrev pub close_connection : String → Option Link → Agent → Agent
close_connection reason none a = a
close_connection reason (some link) a = log_call (connection_close reason) a

abbrev pub stop_client : Bool → Agent → Agent
stop_client false a = a
stop_client true a = log_call transport_stop a

abbrev pub close_wintun : Bool → Agent → Agent
close_wintun false a = a
close_wintun true a = log_call wintun_close a

abbrev pub clean : Outside → Option Instance → Agent → Result (Unit {0}) × Agent
clean o none a = (ok tt, a)
clean o (some config) a = (o.cleanup, log_call network_cleanup a)

abbrev pub cleared : Agent → Agent
cleared a = record a {
  connection = none;
  has_client = false;
  has_wintun = false;
  network_state = none;
}

abbrev pub reset : Outside → String → Result (Unit {0}) × Agent → Result (Unit {0}) × Agent
reset o reason (err e, a) = (err e, a)
reset o reason (ok u, a) = (
  ok u,
  update_state o
      (("connected", boolean false)
        ∷ ("last_event", text "disconnected")
        ∷ ("last_error", text reason)
        ∷ [])
      (cleared a),
)

-- `_disconnect`, which raises what the network's cleanup raises
unfoldable pub disconnect : Outside → String → Agent → Result (Unit {0}) × Agent
unfolding update_state
disconnect o reason a = reset o reason (
    clean o a.active_config (
      close_wintun a.has_wintun (
        stop_client a.has_client
          (close_connection reason a.connection (record a { has_pumps = false })))))

abbrev pub obey : Outside → Option Value → Agent → Agent
obey o command a =
    if is_text "up" command
    then update_state o (("last_event", text "command_up") ∷ [])
        (record a { should_be_connected = true })
    else if is_text "down" command
    then update_state o (("last_event", text "command_down") ∷ [])
        (record a { should_be_connected = false })
    else update_state o
        (("last_event", text (cat "unknown_command:" (str_of o.json (or_default command null))))
          ∷ ("last_error", text "")
          ∷ [])
        a

abbrev pub construct_from : Option Value → Result Instance
construct_from none = construct windows_client_config []
construct_from (some (object fs)) = construct windows_client_config (dict fs)
construct_from (some null) = err (type_error "argument after ** must be a mapping")
construct_from (some (boolean b)) = err (type_error "argument after ** must be a mapping")
construct_from (some (number n)) = err (type_error "argument after ** must be a mapping")
construct_from (some (decimal n k)) = err (type_error "argument after ** must be a mapping")
construct_from (some (text s)) = err (type_error "argument after ** must be a mapping")
construct_from (some (array vs)) = err (type_error "argument after ** must be a mapping")

abbrev pub with_config :
    Outside → Option Value → Result Instance → Agent → Result (Unit {0}) × Agent
with_config o command (err e) a = (err e, a)
with_config o command (ok config) a =
    (ok tt, obey o command (record a { active_config = some config }))

abbrev pub consume_payload :
    Outside → Option (Dict String Value) → Agent → Result (Unit {0}) × Agent
consume_payload o none a = (ok tt, a)
consume_payload o (some payload) a =
    let issued_at = str_or o.json "" (lookup "issued_at" payload) in
    if issued_at == a.last_command_ts
    then (ok tt, a)
    else with_config o (lookup "command" payload) (construct_from (lookup "config" payload))
        (record a { last_command_ts = issued_at })

-- `_consume_command_if_present`, if the file holds a JSON object
unfoldable pub consume_command_if_present : Outside → Agent → Result (Unit {0}) × Agent
unfolding lookup str_or construct str_of update_state
consume_command_if_present o a = consume_payload o a.files.command_file a

abbrev pub config_or_file : Option Instance → Option (Dict String Value) → Result Instance
config_or_file (some config) file = ok config
config_or_file none none = construct windows_client_config []
config_or_file none (some raw) = load_windows_config raw

abbrev pub connect_failed : Outside → Agent → Result (Unit {0}) × Agent
connect_failed o a = (
  ok tt,
  update_state o
      (("connected", boolean false)
        ∷ ("last_event", text "connect_failed")
        ∷ ("last_error", text "connection failed")
        ∷ [])
      (log_call transport_stop
        (record a { connection = none; has_client = false; should_be_connected = false })),
)

abbrev pub setup_failed : Outside → Agent → Result (Unit {0}) × Agent
setup_failed o a = disconnect o "wintun_setup_failed" (record a { should_be_connected = false })

abbrev pub set_up : Outside → Link → Instance → Value → Agent → Agent
set_up o link config network a =
    update_state o
      (("connected", boolean true)
        ∷ ("last_event", text "connected")
        ∷ ("last_error", text "")
        ∷ ("peer_name", link.peer_name)
        ∷ ("peer_role", link.peer_role)
        ∷ ("negotiated_packet_mtu", number link.effective_packet_mtu)
        ∷ ("tunnel_backend", text "wintun")
        ∷ ("session_id", link.session_id)
        ∷ ("tun_address", attribute "tun_address" config)
        ∷ ("tun_peer", attribute "tun_peer" config)
        ∷ ("network_state", network)
        ∷ [])
      (record a { network_state = some network; has_pumps = true })

abbrev pub configured : Outside → Link → Instance → Result Value → Agent → Result (Unit {0}) × Agent
configured o link config (err e) a = setup_failed o a
configured o link config (ok network) a = (ok tt, set_up o link config network a)

abbrev pub created :
    Outside → Link → Instance → Result (Unit {0}) → Agent → Result (Unit {0}) × Agent
created o link config (err e) a = setup_failed o a
created o link config (ok u) a =
    configured o link config o.configure
      (log_call network_configure (log_call wintun_open (record a { has_wintun = true })))

abbrev pub connected : Outside → Instance → Result Link → Agent → Result (Unit {0}) × Agent
connected o config (err e) a = connect_failed o a
connected o config (ok link) a =
    created o link config o.create (record a { connection = some link })

abbrev pub connecting : Outside → Instance → Agent → Agent
connecting o config a = log_call transport_start (
    update_state o
      (("connected", boolean false)
        ∷ ("last_event", text "connecting")
        ∷ ("last_error", text "")
        ∷ [])
      (record a { has_client = true }))

abbrev pub with_client : Outside → Instance → Result (Unit {0}) → Agent → Result (Unit {0}) × Agent
with_client o config (err e) a = (err e, a)
with_client o config (ok u) a = connected o config o.connect (connecting o config a)

abbrev pub using : Outside → Result Instance → Agent → Result (Unit {0}) × Agent
using o (err e) a = (err e, a)
using o (ok config) a = with_client o config o.new_client a

-- `_connect_once`
unfoldable pub connect_once : Outside → Agent → Result (Unit {0}) × Agent
unfolding construct load_windows_config disconnect update_state attribute
connect_once o a = using o (config_or_file a.active_config o.config_file) a
