-- ===== src/Vpn.antt =====
-- veil_core/vpn.py, `VpnConnection`: the state of one VPN session over a transport session and what
-- its methods do to it. Times are in milliseconds. Waits are split at their `await`: a method is
-- given what the wait brought.
pub mod Control
pub mod Runtime
pub mod Closing
pub mod Packets
pub mod Bounds
pub mod Mtu
pub mod Start
pub mod Handshake
pub mod Agreement
pub mod Endpoints
pub mod Retry
use veil_python_stack.Prelude.{
  ℕ, zero, suc, ◌+◌, ◌-◌, String, Bool, true, false, not, ◌&&◌, ◌||◌, Option, none, some, List, [],
  ◌∷◌, ◌++◌, length, ltb, leb, nat_eq, string_eq, ◌==◌, if◌then◌else◌, or_else, or_default,
}
use veil_python_stack.Prelude.Dict.{Dict, lookup, merge}
use veil_python_stack.Prelude.Int.{ℤ, pos, negsuc, ltb_ℤ, leb_ℤ, min_ℤ}
use veil_python_stack.Errors.{
  Error, Result, ok, err, ◌>>=◌, runtime_error, value_error, type_error, key_error, attribute_error,
  timeout_error, cancelled_error, eof_error, connection_error,
}
use veil_python_stack.Events.{
  Event, new_connection_event, data_event, disconnected_event, error_event, kind, kind_value,
}
use veil_python_stack.Message.{Value, number, text, object, Json, fields, dict, str_or, int_of}
use veil_python_stack.Text.{cat}

abbrev pub protocol_version : ℤ
protocol_version = pos 1

-- What the transport answers to `session.send`: whether the n-th send, with this stream and these
-- bytes, is taken.
pub record Net : Type 0 where
  pub accepts : ℕ → ℕ → List ℕ → Bool

-- `closed` is the future `_closed`: its result, or the CancelledError of a future that was cancelled.
pub record Connection : Type 0 where
  pub session_id : ℕ
  pub role : String
  pub local_name : String
  pub packet_mtu : ℤ
  pub keepalive_interval : ℤ
  pub keepalive_timeout : ℤ
  pub control_stream_id : ℕ
  pub packet_stream_id : ℕ
  pub hello_payload : Dict String Value
  pub ready_payload : Dict String Value
  pub packet_queue : List (ℕ × List ℕ)
  pub control_queue : List (Dict String Value)
  pub closed : Option (Result String)
  pub started : Bool
  pub peer_name : String
  pub peer_role : String
  pub peer_packet_mtu : ℤ
  pub peer_parameters : Dict String Value
  pub last_rx_time : ℕ
  pub hello_message : Option (Dict String Value)
  pub ready_message : Option (Dict String Value)
  pub sends : ℕ
  pub sent : List (ℕ × List ℕ)
  pub disconnects : ℕ

-- The arguments of `__init__`.
pub record Settings : Type 0 where
  pub role : String
  pub local_name : String
  pub packet_mtu : ℤ
  pub keepalive_interval : ℤ
  pub keepalive_timeout : ℤ
  pub control_stream_id : ℕ
  pub packet_stream_id : ℕ
  pub hello_payload : Dict String Value
  pub ready_payload : Dict String Value

abbrev pub fresh : ℕ → ℕ → Settings → Connection
fresh now s o = record {
  session_id = s;
  role = o.role;
  local_name = o.local_name;
  packet_mtu = o.packet_mtu;
  keepalive_interval = o.keepalive_interval;
  keepalive_timeout = o.keepalive_timeout;
  control_stream_id = o.control_stream_id;
  packet_stream_id = o.packet_stream_id;
  hello_payload = o.hello_payload;
  ready_payload = o.ready_payload;
  packet_queue = [];
  control_queue = [];
  closed = none;
  started = false;
  peer_name = "";
  peer_role = "";
  peer_packet_mtu = pos 0;
  peer_parameters = [];
  last_rx_time = now;
  hello_message = none;
  ready_message = none;
  sends = 0;
  sent = [];
  disconnects = 0;
}

-- `__init__`, at time `now`, over transport session `s`
unfoldable pub new_connection : ℕ → ℕ → Settings → Result Connection
new_connection now s o =
    if o.control_stream_id == o.packet_stream_id
    then err (value_error "control_stream_id and packet_stream_id must differ")
    else if leb_ℤ o.keepalive_interval (pos 0)
    then err (value_error "keepalive_interval must be > 0")
    else if ltb_ℤ o.keepalive_timeout o.keepalive_interval
    then err (value_error "keepalive_timeout must be >= keepalive_interval")
    else ok (fresh now s o)

unfoldable pub effective_packet_mtu : Connection → ℤ
effective_packet_mtu c =
    if leb_ℤ c.peer_packet_mtu (pos 0) then c.packet_mtu else min_ℤ c.packet_mtu c.peer_packet_mtu

abbrev pub is_closed : Connection → Bool
is_closed c = elim c.closed [ none ↦ false | some reason ↦ true ]

-- `close_reason`
unfoldable pub close_reason : Connection → Result (Option String)
close_reason c = elim c.closed [
  | none ↦ ok none
  | some outcome ↦ outcome >>= λ reason. ok (some reason)
]

abbrev pub set_once : Option (Result String) → Result String → Option (Result String)
set_once none outcome = some outcome
set_once (some old) outcome = some old

-- `_mark_closed`: the first reason stays.
unfoldable pub mark_closed : String → Connection → Connection
mark_closed reason c = record c { closed = set_once c.closed (ok reason) }

-- `await self._closed` and `asyncio.wait_for(self._closed, ...)`, which cancel the future when the
-- task is cancelled or at the timeout
unfoldable pub cancel_closed : Connection → Connection
cancel_closed c = record c { closed = set_once c.closed (err cancelled_error) }

unfoldable pub touch_activity : ℕ → Connection → Connection
touch_activity now c = record c { last_rx_time = now }

-- `self._session.disconnect()`
abbrev pub drop_session : Connection → Connection
drop_session c = record c { disconnects = c.disconnects + 1 }

abbrev pub put_control : Dict String Value → Connection → Connection
put_control message c = record c { control_queue = c.control_queue ++ message ∷ [] }

abbrev pub log_send : Bool → ℕ → List ℕ → Connection → Connection
log_send true i bytes c = record c { sends = c.sends + 1; sent = c.sent ++ (i, bytes) ∷ [] }
log_send false i bytes c = record c { sends = c.sends + 1 }

module _ (net : Net) where
  -- `self._session.send(...)`
  unfoldable pub transmit : ℕ → List ℕ → Connection → Bool × Connection
  transmit i bytes c = let taken = net.accepts c.sends i bytes in (taken, log_send taken i bytes c)

  abbrev sent_packet : Bool × Connection → Result Bool × Connection
  sent_packet (taken, c) = (ok taken, c)

  -- `send_packet`
  unfoldable pub send_packet : List ℕ → Connection → Result Bool × Connection
  unfolding effective_packet_mtu transmit
  send_packet payload c =
      if is_closed c
      then (err (runtime_error "VPN connection is closed"), c)
      else if ltb_ℤ (effective_packet_mtu c) (pos (length payload))
      then (err (value_error "payload exceeds negotiated packet MTU"), c)
      else sent_packet (transmit c.packet_stream_id payload c)

  abbrev sent_control : Bool × Connection → Result (Unit {0}) × Connection
  sent_control (true, c) = (ok tt, c)
  sent_control (false, c) =
      (err (runtime_error "control stream back-pressure prevented message delivery"), c)

  module _ (json : Json) where
    -- `_send_control`
    unfoldable pub send_control : Dict String Value → Connection → Result (Unit {0}) × Connection
    unfolding transmit
    send_control body c =
        sent_control (transmit c.control_stream_id (json.encode (object (fields body))) c)

    abbrev after_close : Result (Unit {0}) × Connection → Result (Unit {0}) × Connection
    after_close (ok u, c) = (ok u, drop_session c)
    after_close (err e, c) = (err e, c)

    -- `close` up to its wait for the connection to be closed
    unfoldable pub close : String → Connection → Result (Unit {0}) × Connection
    unfolding send_control
    close reason c =
        if is_closed c
        then (ok tt, c)
        else after_close
            (send_control (("type", text "vpn.close") ∷ ("reason", text reason) ∷ []) c)
