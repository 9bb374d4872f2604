-- ===== src/Vpn/Control.antt =====
-- veil_core/vpn.py: the control messages of `VpnConnection`, what a peer's hello or ready message
-- sets (`_decode_control`, `_apply_hello`, `_apply_ready`, `_apply_peer_metadata`), and
-- `_handle_runtime_control`.
use veil_python_stack.Prelude.{
  ℕ, String, Bool, true, false, ◌||◌, Option, none, some, List, [], ◌∷◌, nat_eq, string_eq, ◌==◌,
  if◌then◌else◌,
}
use veil_python_stack.Prelude.Dict.{Dict, lookup, merge}
use veil_python_stack.Prelude.Int.{ℤ, pos, negsuc}
use veil_python_stack.Errors.{Result, ok, err, ◌>>=◌, runtime_error}
use veil_python_stack.Message.{
  is_text, Value, null, boolean, number, decimal, text, array, object, Json, dict, str_or, int_of,
  truthy,
}
use veil_python_stack.Vpn.{
  Connection, Net, protocol_version, mark_closed, drop_session, put_control, send_control,
}

-- The keys that every hello and ready message has.
abbrev pub header : String → Connection → Dict String Value
header type c =
    ("type", text type)
    ∷ ("version", number protocol_version)
    ∷ ("role", text c.role)
    ∷ ("name", text c.local_name)
    ∷ ("packet_mtu", number c.packet_mtu)
    ∷ []

unfoldable pub hello : Connection → Dict String Value
hello c = merge (header "vpn.hello" c) c.hello_payload

unfoldable pub ready : Dict String Value → Connection → Dict String Value
ready dynamic c = merge (merge (header "vpn.ready" c) c.ready_payload) dynamic

abbrev pub as_dict : Value → Result (Dict String Value)
as_dict (object fs) = ok (dict fs)
as_dict null = err (runtime_error "control message must be a JSON object")
as_dict (boolean b) = err (runtime_error "control message must be a JSON object")
as_dict (number n) = err (runtime_error "control message must be a JSON object")
as_dict (decimal n k) = err (runtime_error "control message must be a JSON object")
as_dict (text s) = err (runtime_error "control message must be a JSON object")
as_dict (array vs) = err (runtime_error "control message must be a JSON object")

-- `_decode_control`
unfoldable pub decode_control : Json → List ℕ → Result (Dict String Value)
decode_control json raw = json.decode raw >>= as_dict

-- `message.get("type") == type`
abbrev pub has_type : String → Dict String Value → Bool
has_type type message = is_text type (lookup "type" message)

-- `int(message.get("version", 0))`
abbrev version_of : Option Value → Result ℤ
version_of none = ok (pos 0)
version_of (some v) = int_of v

-- `int(message.get("packet_mtu") or 0)`
abbrev pub mtu_of : Option Value → Result ℤ
mtu_of none = ok (pos 0)
mtu_of (some v) = if truthy v then int_of v else ok (pos 0)

abbrev pub is_header_key : String → Bool
is_header_key k =
    (k == "type") || ((k == "version") || ((k == "role") || ((k == "name") || (k == "packet_mtu"))))

-- The entries whose key is not one of the header's.
unfoldable pub parameters : Dict String Value → Dict String Value
parameters [] = []
parameters ((k, v) ∷ d) = let rest = parameters d in if is_header_key k then rest else (k, v) ∷ rest

abbrev is_supported : ℤ → Bool
is_supported (pos n) = n == 1
is_supported (negsuc n) = false

abbrev set_mtu : Dict String Value → Result ℤ → Connection → Result (Unit {0}) × Connection
set_mtu message (ok mtu) c =
    (ok tt, record c { peer_packet_mtu = mtu; peer_parameters = parameters message })
set_mtu message (err e) c = (err e, c)

abbrev set_peer : Json → Dict String Value → Result ℤ → Connection → Result (Unit {0}) × Connection
set_peer json message (err e) c = (err e, c)
set_peer json message (ok version) c =
    if is_supported version
    then set_mtu message (mtu_of (lookup "packet_mtu" message)) (record c {
      peer_role = str_or json "" (lookup "role" message);
      peer_name = str_or json "" (lookup "name" message);
    })
    else (err (runtime_error "unsupported VPN protocol version"), c)

-- `_apply_peer_metadata`: the role and the name stay set when the MTU is not a number.
unfoldable pub apply_peer_metadata :
    Json → Dict String Value → Connection → Result (Unit {0}) × Connection
unfolding parameters
apply_peer_metadata json message c = set_peer json message (version_of (lookup "version" message)) c

-- `_apply_hello` with "vpn.hello", `_apply_ready` with "vpn.ready"
unfoldable pub apply :
    String → Json → Dict String Value → Connection → Result (Unit {0}) × Connection
unfolding apply_peer_metadata
apply type json message c =
    if has_type type message
    then apply_peer_metadata json message c
    else (err (runtime_error "expected another control message"), c)

abbrev goes_on : Result (Unit {0}) × Connection → Result Bool × Connection
goes_on (ok u, c) = (ok false, c)
goes_on (err e, c) = (err e, c)

module _ (net : Net) (json : Json) where
  -- `self._send_control(message); return False`
  abbrev answer : Option (Dict String Value) → Connection → Result Bool × Connection
  answer none c = (ok false, c)
  answer (some message) c = goes_on (send_control net json message c)

  -- `_handle_runtime_control`: whether the session's loop ends
  unfoldable pub handle_runtime_control : Dict String Value → Connection → Result Bool × Connection
  handle_runtime_control message c =
      if has_type "vpn.hello" message
      then answer c.ready_message c
      else if has_type "vpn.ready" message
      then (ok false, c)
      else if has_type "vpn.ping" message
      then answer (some (("type", text "vpn.pong") ∷ [])) c
      else if has_type "vpn.pong" message
      then (ok false, c)
      else if has_type "vpn.close" message
      then (
        ok true,
        drop_session
            (mark_closed (str_or json "closed_by_remote_peer" (lookup "reason" message)) c),
      )
      else (ok false, put_control message c)
