-- ===== src/Vpn/Endpoints.antt =====
-- veil_core/vpn.py, `VpnServer` and `VpnClient`: the connection that each makes of a session, and its
-- handshake. The transport's own operations are in Client.antt and Server.antt.
use veil_python_stack.Prelude.{ℕ, String, Option, none, some, List, []}
use veil_python_stack.Prelude.Dict.{Dict}
use veil_python_stack.Prelude.Int.{ℤ}
use veil_python_stack.Errors.{Result, ok, err}
use veil_python_stack.Message.{Value, Json}
use veil_python_stack.Vpn.{Connection, Net, Settings, new_connection}
use veil_python_stack.Vpn.Start.{Wait, Attempt, start_initiator, start_responder}

-- What the constructors keep
pub record Endpoint : Type 0 where
  pub local_name : String
  pub packet_mtu : ℤ
  pub keepalive_interval : ℤ
  pub keepalive_timeout : ℤ
  pub control_stream_id : ℕ
  pub packet_stream_id : ℕ

abbrev settings : String → Dict String Value → Dict String Value → Endpoint → Settings
settings role hello_payload ready_payload o = record {
  role = role;
  local_name = o.local_name;
  packet_mtu = o.packet_mtu;
  keepalive_interval = o.keepalive_interval;
  keepalive_timeout = o.keepalive_timeout;
  control_stream_id = o.control_stream_id;
  packet_stream_id = o.packet_stream_id;
  hello_payload = hello_payload;
  ready_payload = ready_payload;
}

module _ (net : Net) (json : Json) where
  -- A constructor that raises leaves no connection.
  abbrev responding :
      (factory : Connection → Result (Dict String Value)) (now : ℕ) (wait : Wait)
      → Result Connection
      → Result (Unit {0}) × Option Connection
  responding factory now wait (err e) = (err e, none)
  responding factory now wait (ok c) =
      let (r, c') = start_responder net json factory now wait c in (r, some c')

  -- `VpnServer.accept`, once the transport's `accept` gave session `s`
  unfoldable pub accept_connection :
      Endpoint
      → (ready_payload : Dict String Value)
      → (factory : Connection → Result (Dict String Value)) (made_at now s : ℕ) → Wait
      → Result (Unit {0}) × Option Connection
  unfolding new_connection start_responder
  accept_connection o ready_payload factory made_at now s wait =
      responding factory now wait (new_connection made_at s (settings "server" [] ready_payload o))

  abbrev initiated :
      Option (Result (Unit {0}) × Connection) → Option (Result (Unit {0}) × Option Connection)
  initiated none = none
  initiated (some (r, c)) = some (r, some c)

  abbrev initiating :
      (began timeout now : ℕ)
      → List Attempt
      → Result Connection
      → Option (Result (Unit {0}) × Option Connection)
  initiating began timeout now attempts (err e) = some (err e, none)
  initiating began timeout now attempts (ok c) =
      initiated (start_initiator net json began timeout now attempts c)

  -- `VpnClient.connect`, once the transport's `connect_session` gave session `s`
  unfoldable pub connect_connection :
      Endpoint
      → (hello_payload : Dict String Value) (made_at began timeout now s : ℕ) → List Attempt
      → Option (Result (Unit {0}) × Option Connection)
  unfolding new_connection start_initiator
  connect_connection o hello_payload made_at began timeout now s attempts =
      initiating began timeout now attempts
        (new_connection made_at s (settings "client" hello_payload [] o))
