-- ===== src/Vpn/Agreement.antt =====
-- A handshake of two `VpnConnection`s over a transport that takes every send.
use veil_python_stack.Prelude.{
  ℕ, ◌+◌, ◌≡◌, refl, true, false, some, List, [], ◌∷◌, ◌++◌, String, leb, subst, sym,
}
use veil_python_stack.Prelude.Dict.{Dict}
use veil_python_stack.Prelude.Int.{ℤ, pos, leb_ℤ, min_ℤ}
use veil_python_stack.Errors.{Result, ok}
use veil_python_stack.Message.{Value, Json}
use veil_python_stack.Vpn.{Connection, Net, effective_packet_mtu, touch_activity}
use veil_python_stack.Vpn.Control.{hello, ready, parameters}
use veil_python_stack.Vpn.Start.{Attempt, Wait, start_initiator, start_responder}
use veil_python_stack.Vpn.Handshake.{
  IsPayload, Parses, wire, met, hello-Says, ready-Says, effective-met, responder-done,
  initiator-done, Brings,
}

-- What a side of the handshake ends with
abbrev pub Agreed : Connection → ℤ → Dict String Value → Connection → Type 0
Agreed before mtu message after =
    (after.started ≡ true)
    × (after.closed ≡ before.closed)
    × (after.peer_parameters ≡ parameters message)
    × (effective_packet_mtu after ≡ min_ℤ before.packet_mtu mtu)

-- The responder's ready message, once it knows the initiator's hello
abbrev pub answer : Json → Dict String Value → Connection → Connection → Dict String Value
answer json dynamic i r = ready dynamic (met json i.packet_mtu (hello i) r)

-- Over transports that take every send, when both sides have the same control stream, the JSON texts
-- of the two messages parse, the payloads and the entries that the responder's factory gives leave
-- the keys "type", "version" and "packet_mtu" alone, both MTUs are positive, neither side has
-- started, and the message of the other side is the first one on its sender's control stream in the
-- responder's wait and in the initiator's first wait, begun before the deadline (events on other
-- streams may come in front of it), then the responder answers the initiator's hello with exactly one message, its ready, the
-- initiator accepts this message, and both sides are started, know the other's parameters, and use
-- the smaller of the two MTUs.
pub handshake_agrees :
    (json : Json) (here there : Net)
    (here_takes : (n s : ℕ) (bytes : List ℕ) → here.accepts n s bytes ≡ true)
    (there_takes : (n s : ℕ) (bytes : List ℕ) → there.accepts n s bytes ≡ true)
    (factory : Connection → Result (Dict String Value)) (dynamic : Dict String Value)
    (i r : Connection) (began timeout asked now later : ℕ) (hearing waiting : Wait)
    (rest : List Attempt)
    → i.control_stream_id ≡ r.control_stream_id
    → i.started ≡ false
    → r.started ≡ false
    → IsPayload i.hello_payload
    → IsPayload r.ready_payload
    → IsPayload dynamic
    → leb_ℤ i.packet_mtu (pos 0) ≡ false
    → leb_ℤ r.packet_mtu (pos 0) ≡ false
    → leb (began + timeout) asked ≡ false
    → factory (met json i.packet_mtu (hello i) r) ≡ ok dynamic
    → Parses json (hello i)
    → Parses json (answer json dynamic i r)
    → Brings i.control_stream_id (wire json (hello i)) hearing
    → Brings r.control_stream_id (wire json (answer json dynamic i r)) waiting
    → (i' : Connection) × (r' : Connection) × (start_responder there json factory now hearing r
        ≡ (ok tt, r'))
      × (start_initiator here json began timeout later
            (record { asked_at = asked; wait = waiting } ∷ rest)
            i
          ≡ some (ok tt, i'))
      × (i'.sent ≡ i.sent ++ (i.control_stream_id, wire json (hello i)) ∷ [])
      × (r'.sent ≡ r.sent ++ (r.control_stream_id, wire json (answer json dynamic i r)) ∷ [])
      × Agreed i r.packet_mtu (answer json dynamic i r) i'
      × Agreed r i.packet_mtu (hello i) r'
unfolding touch_activity
handshake_agrees json here there here_takes there_takes factory dynamic i r began timeout asked now
      later hearing waiting rest streams i_fresh r_fresh i_payload r_payload d_payload i_mtu r_mtu
      early gives hello-Parses ready-Parses hears waits =
    let known = met json i.packet_mtu (hello i) r in
    let message = ready dynamic known in
    (
      _,
      _,
      responder-done json there factory dynamic (hello i) i.packet_mtu now hearing r there_takes
          r_fresh gives (hello-Says i i_payload) hello-Parses
          (subst (λ s. Brings s (wire json (hello i)) hearing) streams hears),
      initiator-done json here message r.packet_mtu began timeout later asked waiting rest i
          here_takes i_fresh early (ready-Says dynamic known d_payload r_payload) ready-Parses
          (subst (λ s. Brings s (wire json message) waiting) (sym streams) waits),
      refl,
      refl,
      (refl, refl, refl, effective-met _ r_mtu),
      (refl, refl, refl, effective-met _ i_mtu),
    )
