-- ===== src/Proxy/Routing.antt =====
-- Where `LinuxVpnProxyServer` sends a packet.
use veil_python_stack.Prelude.{
  ℕ, ◌≡◌, refl, if-false, ◌∙◌, true, false, none, some, List, [], ◌∷◌, ◌++◌, ◌+◌, arith, nat_eq,
  string_eq, ◌==◌, length,
}
use veil_python_stack.Prelude.Dict.{lookup, insert, lookup-insert, lookup-remove, beq_refl}
use veil_python_stack.Prelude.Int.{pos, ltb_ℤ}
use veil_python_stack.Errors.{ok, err, value_error}
use veil_python_stack.Message.{Json}
use veil_python_stack.Pool.{Pool, Lease, session_for_destination}
use veil_python_stack.Pool.Invariant.{IsValid}
use veil_python_stack.Pool.Allocate.{usable-ne-nil}
use veil_python_stack.Vpn.{Connection, Net, send_packet, effective_packet_mtu, transmit, is_closed}
use veil_python_stack.Proxy.{
  ProxyServer, extract_destination_ipv4, pump_tun_to_clients, pump_client_to_tun,
  send_packet_with_retry, remove_connection, ended, without, store,
}

-- The connection once the transport took this packet
abbrev pub took : List ℕ → Connection → Connection
took payload c = record c {
  sends = c.sends + 1;
  sent = c.sent ++ (c.packet_stream_id, payload) ∷ [];
}

module _ (net : Net) where
  send_packet-took :
      (payload : List ℕ) (c : Connection)
      → is_closed c ≡ false
      → ltb_ℤ (effective_packet_mtu c) (pos (length payload)) ≡ false
      → net.accepts c.sends c.packet_stream_id payload ≡ true
      → send_packet net payload c ≡ (ok true, took payload c)
  unfolding send_packet transmit effective_packet_mtu
  send_packet-took payload c up small takes = ground (arith, up, small, takes)

  send_packet-oversized :
      (payload : List ℕ) (c : Connection)
      → is_closed c ≡ false
      → ltb_ℤ (effective_packet_mtu c) (pos (length payload)) ≡ true
      → send_packet net payload c ≡ (err (value_error "payload exceeds negotiated packet MTU"), c)
  unfolding send_packet effective_packet_mtu
  send_packet-oversized payload c up large = ground (arith, up, large)

lease-destination :
    (p : Pool) (s : ℕ) (l : Lease)
    → IsValid p
    → lookup s p.leases_by_session ≡ some l
    → session_for_destination p (some l.client_ip) ≡ some s
unfolding session_for_destination
lease-destination p s l valid h =
    let here = valid.owned s l h in
    if-false _ _ (usable-ne-nil p.interface l.client_ip (valid.usable l.client_ip s here)) ∙ here

-- In a server whose pool is well formed, a packet read from the TUN device whose destination is the
-- address leased to a session goes out on this session's open connection, when it fits the
-- connection's MTU and the transport takes it, and nothing else changes in the server.
pub tun_packet_reaches_lease :
    (net : Net) (changes : List (Connection → Connection)) (packet : List ℕ) (p : ProxyServer)
    (s : ℕ) (l : Lease) (c : Connection)
    → IsValid p.pool
    → lookup s p.pool.leases_by_session ≡ some l
    → extract_destination_ipv4 packet ≡ some l.client_ip
    → lookup s p.connections ≡ some c
    → is_closed c ≡ false
    → ltb_ℤ (effective_packet_mtu c) (pos (length packet)) ≡ false
    → net.accepts c.sends c.packet_stream_id packet ≡ true
    → pump_tun_to_clients net changes packet p ≡ some (ok tt, store net s (took packet c) p)
unfolding pump_tun_to_clients send_packet_with_retry extract_destination_ipv4
tun_packet_reaches_lease net changes [] p s l c valid leased at held up small takes = ground arith
tun_packet_reaches_lease net [] (b ∷ bs) p s l c valid leased at held up small takes =
    rw
      (
        at,
        lease-destination p.pool s l valid leased,
        held,
        up,
        send_packet-took net (b ∷ bs) c up small takes,
      )
      refl
tun_packet_reaches_lease net (x ∷ xs) (b ∷ bs) p s l c valid leased at held up small takes =
    rw
      (
        at,
        lease-destination p.pool s l valid leased,
        held,
        up,
        send_packet-took net (b ∷ bs) c up small takes,
      )
      refl

-- When a client's packet for another client's address is longer than the other's MTU, the round
-- ends the sender's task with ValueError, and the sender, not the receiver, loses its connection.
pub oversized_forward_drops_sender :
    (net : Net) (json : Json) (changes : List (Connection → Connection)) (from to : ℕ)
    (payload : List ℕ) (p : ProxyServer) (c : Connection)
    → session_for_destination p.pool (extract_destination_ipv4 payload) ≡ some to
    → (to == from) ≡ false
    → lookup to p.connections ≡ some c
    → is_closed c ≡ false
    → ltb_ℤ (effective_packet_mtu c) (pos (length payload)) ≡ true
    → (q : ProxyServer) × (pump_client_to_tun net json changes from payload p
        ≡ some (ended (some (value_error "payload exceeds negotiated packet MTU")), q))
      × (lookup from q.connections ≡ none)
      × (lookup to q.connections ≡ some c)
unfolding pump_client_to_tun send_packet_with_retry remove_connection
oversized_forward_drops_sender net json [] from to payload p c at other held up large = (
  without net json from (store net to c p),
  rw (at, other, held, up, send_packet-oversized net payload c up large) refl,
  ground (arith, lookup-remove from from (insert to c p.connections), beq_refl from),
  ground (
    arith,
    other,
    lookup-remove from to (insert to c p.connections),
    lookup-insert to to c p.connections,
    beq_refl to,
  ),
)
oversized_forward_drops_sender net json (x ∷ xs) from to payload p c at other held up large = (
  without net json from (store net to c p),
  rw (at, other, held, up, send_packet-oversized net payload c up large) refl,
  ground (arith, lookup-remove from from (insert to c p.connections), beq_refl from),
  ground (
    arith,
    other,
    lookup-remove from to (insert to c p.connections),
    lookup-insert to to c p.connections,
    beq_refl to,
  ),
)
