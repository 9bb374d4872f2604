-- ===== src/Vpn/Handshake.antt =====
-- The handshake of two `VpnConnection`s, one started with `initiator=True` and one with
-- `initiator=False`.
use veil_python_stack.Prelude.{
  ℕ, ◌+◌, ◌≡◌, refl, ◌∙◌, String, true, false, none, some, List, [], ◌∷◌, ◌++◌, arith, nat_eq,
  string_eq, ◌==◌, All, leb, if-false,
}
use veil_python_stack.Prelude.Dict.{lookup-merge, Dict, lookup, merge, beq_refl}
use veil_python_stack.Prelude.Int.{ℤ, pos, negsuc, leb_ℤ, min_ℤ}
use veil_python_stack.Errors.{Result, ok}
use veil_python_stack.Message.{
  dict-fields, Value, number, text, object, Json, fields, str_or, truthy, int_of,
}
use veil_python_stack.Vpn.{
  Connection, Net, send_control, transmit, touch_activity, effective_packet_mtu,
}
use veil_python_stack.Vpn.Control.{
  hello, ready, header, decode_control, apply, apply_peer_metadata, parameters, mtu_of,
}
use veil_python_stack.Vpn.Start.{
  Reply, replied, Wait, Attempt, recv_control_message, start_initiator, start_responder,
  await_ready,
}

-- A payload that leaves the handshake's own keys alone
abbrev pub IsPayload : Dict String Value → Type 0
IsPayload d =
    (lookup "type" d ≡ none) × (lookup "version" d ≡ none) × (lookup "packet_mtu" d ≡ none)

-- What a message must say to be applied
abbrev pub Says : String → ℤ → Dict String Value → Type 0
Says type mtu m =
    (lookup "type" m ≡ some (text type))
    × (lookup "version" m ≡ some (number (pos 1)))
    × (lookup "packet_mtu" m ≡ some (number mtu))

header-Says : (type : String) (c : Connection) → Says type c.packet_mtu (header type c)
unfolding lookup
header-Says type c = (refl, refl, refl)

merge-Says :
    (type : String) (mtu : ℤ) (m d : Dict String Value)
    → IsPayload d
    → Says type mtu m
    → Says type mtu (merge m d)
merge-Says type mtu m d (a, b, c) (p, q, r) = (
  lookup-merge "type" m d a ∙ p,
  lookup-merge "version" m d b ∙ q,
  lookup-merge "packet_mtu" m d c ∙ r,
)

pub hello-Says :
    (c : Connection) → IsPayload c.hello_payload → Says "vpn.hello" c.packet_mtu (hello c)
unfolding hello
hello-Says c h =
    merge-Says "vpn.hello" c.packet_mtu (header "vpn.hello" c) c.hello_payload h
      (header-Says "vpn.hello" c)

pub ready-Says :
    (d : Dict String Value) (c : Connection)
    → IsPayload d
    → IsPayload c.ready_payload
    → Says "vpn.ready" c.packet_mtu (ready d c)
unfolding ready
ready-Says d c h h' =
    merge-Says "vpn.ready" c.packet_mtu (merge (header "vpn.ready" c) c.ready_payload) d h (
      merge-Says "vpn.ready" c.packet_mtu (header "vpn.ready" c) c.ready_payload h'
        (header-Says "vpn.ready" c))

mtu_of-number : (n : ℤ) → mtu_of (some (number n)) ≡ ok n
unfolding truthy int_of
mtu_of-number (pos n) = ground arith
mtu_of-number (negsuc n) = refl

-- The connection once a message of the peer is applied
abbrev pub met : Json → ℤ → Dict String Value → Connection → Connection
met json mtu m c = record c {
  peer_role = str_or json "" (lookup "role" m);
  peer_name = str_or json "" (lookup "name" m);
  peer_packet_mtu = mtu;
  peer_parameters = parameters m;
}

apply-met :
    (type : String) (json : Json) (mtu : ℤ) (m : Dict String Value) (c : Connection)
    → Says type mtu m
    → apply type json m c ≡ (ok tt, met json mtu m c)
unfolding apply apply_peer_metadata int_of
apply-met type json mtu m c (p, q, r) = ground (arith, p, q, r, mtu_of-number mtu, beq_refl type)

pub effective-met :
    (c : Connection)
    → leb_ℤ c.peer_packet_mtu (pos 0) ≡ false
    → effective_packet_mtu c ≡ min_ℤ c.packet_mtu c.peer_packet_mtu
unfolding effective_packet_mtu
effective-met c h = rw h refl

-- The bytes of a message
abbrev pub wire : Json → Dict String Value → List ℕ
wire json m = json.encode (object (fields m))

module _ (net : Net) (json : Json) where
  -- The connection once a message went out
  abbrev pub said : Dict String Value → Connection → Connection
  said m c = record c {
    sends = c.sends + 1;
    sent = c.sent ++ (c.control_stream_id, wire json m) ∷ [];
  }

  send_control-said :
      ((n s : ℕ) (bytes : List ℕ) → net.accepts n s bytes ≡ true)
      → (m : Dict String Value) (c : Connection) → send_control net json m c ≡ (ok tt, said m c)
  unfolding send_control transmit
  send_control-said takes m c = ground (arith, takes c.sends c.control_stream_id (wire json m))

-- The JSON text of this message parses as the message.
abbrev pub Parses : Json → Dict String Value → Type 0
Parses json m = json.decode (wire json m) ≡ ok (object (fields m))

-- The first data event of the wait that is on this stream carries these bytes.
abbrev pub Brings : ℕ → List ℕ → Wait → Type 0
Brings stream raw w = recv_control_message stream w.arrived w.otherwise ≡ replied raw

-- Events on other streams in front of the message do not matter.
pub Brings-after :
    (stream : ℕ) (raw : List ℕ) (before after : List (ℕ × List ℕ)) (otherwise : Reply)
    → All (λ e. (e.0 == stream) ≡ false) before
    → Brings stream raw
        (record { arrived = before ++ (stream, raw) ∷ after; otherwise = otherwise })
unfolding recv_control_message
Brings-after stream raw [] after otherwise h = ground (arith, beq_refl stream)
Brings-after stream raw ((i, x) ∷ before) after otherwise (other, h) =
    rw other (Brings-after stream raw before after otherwise h)

module _ (json : Json) where
  decode_control-wire :
      (m : Dict String Value) → Parses json m → decode_control json (wire json m) ≡ ok m
  unfolding decode_control
  decode_control-wire m parse = rw (parse, dict-fields m) refl

  pub responder-done :
      (net : Net) (factory : Connection → Result (Dict String Value))
      (dynamic m : Dict String Value) (mtu : ℤ) (now : ℕ) (wait : Wait) (r : Connection)
      → ((n s : ℕ) (bytes : List ℕ) → net.accepts n s bytes ≡ true)
      → r.started ≡ false
      → factory (met json mtu m r) ≡ ok dynamic
      → Says "vpn.hello" mtu m
      → Parses json m
      → Brings r.control_stream_id (wire json m) wait
      → start_responder net json factory now wait r ≡ (
        ok tt,
        touch_activity now
            (record (said net json (ready dynamic (met json mtu m r)) (record (met json mtu m r) {
              ready_message = some (ready dynamic (met json mtu m r));
            })) { started = true }),
      )
  unfolding start_responder
  responder-done net factory dynamic m mtu now wait r takes fresh hf says parse brings =
      if-false _ _ fresh
      ∙ rw
          (
            brings,
            decode_control-wire m parse,
            apply-met "vpn.hello" json mtu m r says,
            hf,
            send_control-said net json takes,
          )
          refl

  pub initiator-done :
      (net : Net) (m : Dict String Value) (mtu : ℤ) (began timeout now asked : ℕ) (wait : Wait)
      (rest : List Attempt) (i : Connection)
      → ((n s : ℕ) (bytes : List ℕ) → net.accepts n s bytes ≡ true)
      → i.started ≡ false
      → leb (began + timeout) asked ≡ false
      → Says "vpn.ready" mtu m
      → Parses json m
      → Brings i.control_stream_id (wire json m) wait
      → start_initiator net json began timeout now
          (record { asked_at = asked; wait = wait } ∷ rest)
          i
        ≡ some (
          ok tt,
          touch_activity now
              (record (met json mtu m
                (said net json (hello i) (record i { hello_message = some (hello i) }))) {
                  started = true;
                }),
        )
  unfolding start_initiator await_ready
  initiator-done net m mtu began timeout now asked wait rest i takes fresh early says parse brings =
      if-false _ _ fresh
      ∙ rw
          (
            send_control-said net json takes,
            brings,
            early,
            decode_control-wire m parse,
            apply-met "vpn.ready" json mtu m _ says,
          )
          refl
