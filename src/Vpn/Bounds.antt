-- ===== src/Vpn/Bounds.antt =====
-- The packets that a `VpnConnection` hands to the transport fit its packet MTU.
pub mod Starting
use veil_python_stack.Prelude.{
  ℕ, ◌≡◌, ◌+◌, String, Bool, true, false, ◌&&◌, ◌||◌, not, Option, none, some, List, [], ◌∷◌, ◌++◌,
  arith, nat_eq, ◌==◌, length, Option-cases, inl, inr, if-Holds, if-cases,
}
use veil_python_stack.Prelude.Dict.{Dict}
use veil_python_stack.Prelude.Int.{ℤ, pos, ltb_ℤ}
use veil_python_stack.Errors.{
  index_error, called_process_error, process_lookup_error, permission_error, Error, Result, ok, err,
  runtime_error, value_error, type_error, key_error, attribute_error, timeout_error,
  cancelled_error, eof_error, connection_error,
}
use veil_python_stack.Message.{Value, Json, text, object, fields}
use veil_python_stack.Vpn.{
  Connection, Net, Settings, new_connection, mark_closed, touch_activity, transmit, send_control,
  send_packet, close, effective_packet_mtu,
}
use veil_python_stack.Vpn.Control.{
  handle_runtime_control, decode_control, apply, apply_peer_metadata, hello, ready,
}
use veil_python_stack.Vpn.Start.{
  Reply, replied, gave_up, was_cancelled, Wait, Attempt, on_exception, finish, settle_attempt,
  second, await_ready, take_ready, on_ready, start_initiator, send_ready, respond_with, respond,
  take_hello, on_hello, reply_of, start_responder,
}

-- Whether a send is on another stream than this one, or its bytes are at most this many
abbrev fits : ℕ → ℤ → ℕ × List ℕ → Bool
fits stream mtu (i, bytes) = not (i == stream) || not (ltb_ℤ mtu (pos (length bytes)))

unfoldable pub all_fit : ℕ → ℤ → List (ℕ × List ℕ) → Bool
all_fit stream mtu [] = true
all_fit stream mtu (s ∷ sends) = fits stream mtu s && all_fit stream mtu sends

all_fit-snoc :
    (stream : ℕ) (mtu : ℤ) (sends : List (ℕ × List ℕ)) (s : ℕ × List ℕ)
    → all_fit stream mtu (sends ++ s ∷ []) ≡ (all_fit stream mtu sends && fits stream mtu s)
unfolding all_fit
all_fit-snoc stream mtu [] s = ground arith
all_fit-snoc stream mtu (t ∷ sends) s = ground (arith, all_fit-snoc stream mtu sends s)

-- The streams differ, and every packet that the transport took fits the MTU.
abbrev pub IsBounded : Connection → Type 0
IsBounded c =
    ((c.control_stream_id == c.packet_stream_id) ≡ false)
    × (all_fit c.packet_stream_id c.packet_mtu c.sent ≡ true)

-- A packet that `send_packet` lets pass fits the MTU of this side.
effective-bound :
    (c : Connection) (n : ℕ)
    → ltb_ℤ (effective_packet_mtu c) (pos n) ≡ false
    → ltb_ℤ c.packet_mtu (pos n) ≡ false
unfolding effective_packet_mtu
effective-bound c n h = ground (arith, h)

pub new_connection-IsBounded :
    (now s : ℕ) (o : Settings) {c : Connection} → new_connection now s o ≡ ok c → IsBounded c
unfolding new_connection all_fit
new_connection-IsBounded now s o h = (ground (arith, h), ground (arith, h))

module _ (net : Net) (json : Json) where
  pub send_control-IsBounded :
      (m : Dict String Value) (c : Connection)
      → IsBounded c
      → IsBounded (send_control net json m c).1
  unfolding send_control transmit
  send_control-IsBounded m c h =
      let bytes = json.encode (object (fields m)) in
      (
        ground (arith, h.0),
        ground (
          arith,
          h.0,
          h.1,
          all_fit-snoc c.packet_stream_id c.packet_mtu c.sent (c.control_stream_id, bytes),
        ),
      )

  pub send_packet-IsBounded :
      (payload : List ℕ) (c : Connection) → IsBounded c → IsBounded (send_packet net payload c).1
  unfolding send_packet transmit
  send_packet-IsBounded payload c h = (
    ground (arith, h.0),
    ground (
      arith,
      h.1,
      effective-bound c (length payload),
      all_fit-snoc c.packet_stream_id c.packet_mtu c.sent (c.packet_stream_id, payload),
    ),
  )

  pub close-IsBounded :
      (why : String) (c : Connection) → IsBounded c → IsBounded (close net json why c).1
  unfolding close
  close-IsBounded why c h =
      let (a, b) =
        send_control-IsBounded (("type", text "vpn.close") ∷ ("reason", text why) ∷ []) c h in
      (ground (arith, h.0, a), ground (arith, h.1, b))
