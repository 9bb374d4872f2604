-- ===== src/Examples/Tunnel.antt =====
-- The theorems on the VPN connection and the proxy server, at concrete inputs.
use veil_python_stack.Prelude.{arith}
use veil_python_stack.Prelude.Dict.{Dict}
use veil_python_stack.Prelude.{
  ℕ, ◌≡◌, refl, subst, true, false, none, some, List, [], ◌∷◌, ◌++◌, String, nat_eq, string_eq,
  ◌==◌, if◌then◌else◌, length, get_or,
}
use veil_python_stack.Prelude.Dict.{lookup, insert, merge}
use veil_python_stack.Prelude.Int.{pos, ltb_ℤ}
use veil_python_stack.Errors.{Error, Result, ok, err, ◌>>=◌, runtime_error, value_error}
use veil_python_stack.Events.{data_event, disconnected_event}
use veil_python_stack.Message.{truthy, int_of, Value, text, object, Json, fields, Fields}
use veil_python_stack.Pool
use veil_python_stack.Pool.{
  Lease, new_lease, empty, session_for_destination, allocate, select, first_available, is_available,
  normalize_preferred_address,
}
use veil_python_stack.Pool.Invariant
use veil_python_stack.Pool.Invariant.{IsValid, run-IsValid, allocated}
use veil_python_stack.Ipv4.{Interface, show_address, hosts, parse_address, parse_octet}
use veil_python_stack.Text.{show, split_on}
use veil_python_stack.Vpn.{
  Connection, Net, Settings, fresh, new_connection, send_packet, effective_packet_mtu, send_control,
  transmit, mark_closed, touch_activity, close_reason, close,
}
use veil_python_stack.Vpn.Control.{
  hello, ready, header, decode_control, apply, apply_peer_metadata, parameters,
}
use veil_python_stack.Vpn.Runtime.{Input, delivered, tick, run, step, handle_event, keepalive}
use veil_python_stack.Vpn.Start.{
  Wait, was_cancelled, recv_control_message, start_initiator, start_responder,
}
use veil_python_stack.Vpn.Handshake.{wire, Parses, IsPayload, Brings-after}
use veil_python_stack.Vpn.Closing.{ended_stays_closed}
use veil_python_stack.Vpn.Packets.{packets_of, run-packet_queue}
use veil_python_stack.Vpn.Mtu.{
  Action, act, input, call_send_packet, call_close, call_start_initiator, act_all, running, idle,
  sent_packets_fit,
}
use veil_python_stack.Vpn.Bounds.{IsBounded}
use veil_python_stack.Vpn.Agreement.{Agreed, answer, handshake_agrees}
use veil_python_stack.Vpn.Retry.{await_ready_ends}
use veil_python_stack.Vpn.Start.{gave_up, await_ready, Attempt}
use veil_python_stack.Proxy.Bridge.{raised, run_forever}
use veil_python_stack.Proxy.Backoff.{run_forever_delays}
use veil_python_stack.Prelude.{All, ◌≤◌}
use veil_python_stack.Proxy.{
  ProxyServer, extract_destination_ipv4, pump_tun_to_clients, pump_client_to_tun, ended, store,
}
use veil_python_stack.Proxy.Routing.{took, tun_packet_reaches_lease, oversized_forward_drops_sender}

abbrev pub net : Net
net = record { accepts = λ n s bytes. true }

abbrev pub settings : Settings
settings = record {
  role = "client";
  local_name = "a";
  packet_mtu = pos 1300;
  keepalive_interval = pos 10000;
  keepalive_timeout = pos 30000;
  control_stream_id = 1;
  packet_stream_id = 2;
  hello_payload = [];
  ready_payload = [];
}

abbrev pub a : Connection
a = fresh 0 7 settings

abbrev pub b : Connection
b = fresh 0 7 (record settings { role = "server"; local_name = "b"; packet_mtu = pos 1200 })

abbrev pub hello_text : Value
hello_text = object (fields (header "vpn.hello" a))

abbrev pub ready_text : Value
ready_text = object (fields (header "vpn.ready" b))

-- A text format for the two messages of this handshake
abbrev pub code : Value → List ℕ
code (object (Fields.field k (text t) fs)) = if t == "vpn.hello" then 1 ∷ [] else 2 ∷ []
code _ = []

abbrev pub parse : List ℕ → Result Value
parse bs = if get_or bs 0 0 == 1 then ok hello_text else ok ready_text

abbrev pub json : Json
json = record { encode = code; decode = parse; repr = λ v. "" }

abbrev describe : Error → String
describe e = "error"

a_new : new_connection 0 7 settings ≡ ok a
unfolding new_connection
a_new = refl

abbrev bytes : List ℕ
bytes = 1 ∷ 2 ∷ []

abbrev inputs : List Input
inputs = delivered 5 (data_event 7 2 bytes) ∷ tick 10 ∷ delivered 12 (data_event 7 3 bytes) ∷ []

abbrev ending : List Input
ending = delivered 20 (disconnected_event 7 "bye") ∷ []

live_after : (run net json describe inputs (running a)).event_task ≡ true
unfolding run step handle_event keepalive send_control transmit mark_closed touch_activity
live_after = refl

run-packet_queue_example :
    (run net json describe inputs (running a)).connection.packet_queue
    ≡ a.packet_queue ++ packets_of 2 inputs
run-packet_queue_example = run-packet_queue net json describe inputs (running a) live_after

over : (run net json describe ending (running a)).event_task ≡ false
unfolding run step handle_event keepalive send_control transmit mark_closed touch_activity
over = refl

ended_stays_closed_example :
    (reason : Result String) × ((run net json describe ending (running a)).connection.closed
      ≡ some reason)
    × ((run net json describe inputs (run net json describe ending (running a))).connection.closed
        ≡ some reason)
    × (close_reason
          (run net json describe inputs (run net json describe ending (running a))).connection
        ≡ (reason >>= λ text. ok (some text)))
    × (send_packet net bytes
          (run net json describe inputs (run net json describe ending (running a))).connection
        ≡ (
          err (runtime_error "VPN connection is closed"),
          (run net json describe inputs (run net json describe ending (running a))).connection,
        ))
ended_stays_closed_example =
    ended_stays_closed net json describe ending inputs (running a) bytes refl over

-- The ready message comes after an event on another stream.
abbrev with_ready : Wait
with_ready = record { arrived = (9, 5 ∷ []) ∷ (1, 2 ∷ []) ∷ []; otherwise = was_cancelled }

abbrev actions : List Action
actions =
    call_start_initiator 0 10000 4 (record { asked_at = 1; wait = with_ready } ∷ [])
    ∷ call_send_packet bytes
    ∷ input (tick 10)
    ∷ call_close "done"
    ∷ []

sent_packets_fit_example : IsBounded (act_all net json describe actions (idle a)).connection
sent_packets_fit_example = sent_packets_fit net json describe 0 7 settings a_new actions

-- The start takes the peer's MTU, and the packet goes out after the hello.
started_and_sent :
    ((act_all net json describe actions (idle a)).connection.peer_packet_mtu ≡ pos 1200)
    × ((act_all net json describe actions (idle a)).connection.sent
        ≡ (1, 1 ∷ []) ∷ (2, bytes) ∷ (1, 2 ∷ []) ∷ (1, 2 ∷ []) ∷ [])
unfolding act_all act start_initiator await_ready recv_control_message send_control transmit
    decode_control apply apply_peer_metadata touch_activity send_packet close step keepalive hello
    truthy int_of lookup merge parameters effective_packet_mtu
started_and_sent = (refl, refl)

ready_answer : answer json [] a b ≡ header "vpn.ready" b
unfolding ready merge
ready_answer = refl

hello-Parses : Parses json (hello a)
unfolding hello merge
hello-Parses = refl

ready-Parses : Parses json (answer json [] a b)
ready-Parses = rw ready_answer refl

empty-IsPayload : IsPayload []
unfolding lookup
empty-IsPayload = (refl, refl, refl)

abbrev with_hello : Wait
with_hello = record {
  arrived = (2, 5 ∷ []) ∷ (1, wire json (hello a)) ∷ [];
  otherwise = was_cancelled;
}

abbrev with_answer : Wait
with_answer = record {
  arrived = (9, 5 ∷ []) ∷ (1, wire json (answer json [] a b)) ∷ [];
  otherwise = gave_up 400;
}

handshake_agrees_example :
    (i' : Connection) × (r' : Connection) × (start_responder net json (λ c. ok []) 3 with_hello b
      ≡ (ok tt, r'))
    × (start_initiator net json 0 10000 4 (record { asked_at = 1; wait = with_answer } ∷ []) a
        ≡ some (ok tt, i'))
    × (i'.sent ≡ (1, wire json (hello a)) ∷ [])
    × (r'.sent ≡ (1, wire json (answer json [] a b)) ∷ [])
    × Agreed a (pos 1200) (answer json [] a b) i'
    × Agreed b (pos 1300) (hello a) r'
handshake_agrees_example =
    handshake_agrees json net net (λ n s x. refl) (λ n s x. refl) (λ c. ok []) [] a b 0 10000 1 3 4
      with_hello with_answer [] refl refl refl empty-IsPayload empty-IsPayload empty-IsPayload refl
      refl refl refl hello-Parses ready-Parses
      (Brings-after 1 (wire json (hello a)) ((2, 5 ∷ []) ∷ []) [] was_cancelled (refl, tt))
      (Brings-after 1 (wire json (answer json [] a b)) ((9, 5 ∷ []) ∷ []) [] (gave_up 400)
        (refl, tt))

-- A server on 10.0.0.1/30 whose client 8 has the address 10.0.0.2
abbrev interface : Interface
interface = record { ip = 167772161; prefix = 30 }

abbrev lease : Lease
lease = new_lease (empty interface) 8 "10.0.0.2"

abbrev proxy : ProxyServer
proxy = record {
  routes = [];
  pool = (allocate (empty interface) 8 none).1;
  connections = (8, a) ∷ [];
  written = [];
}

abbrev packet : List ℕ
packet = 69 ∷ 0 ∷ 0 ∷ 20 ∷ 0 ∷ 0 ∷ 0 ∷ 0 ∷ 64 ∷ 17 ∷ 0 ∷ 0 ∷ 10 ∷ 0 ∷ 0 ∷ 9 ∷ 10 ∷ 0 ∷ 0 ∷ 2 ∷ []

pool_run : Pool.Invariant.run (empty interface) (allocated 8 none ∷ []) ≡ proxy.pool
unfolding Pool.Invariant.run
pool_run = refl

pool-IsValid : IsValid proxy.pool
pool-IsValid = subst IsValid pool_run (run-IsValid interface (allocated 8 none ∷ []))

leased : lookup 8 proxy.pool.leases_by_session ≡ some lease
unfolding allocate select first_available is_available hosts parse_address show_address show
    split_on lookup insert normalize_preferred_address parse_octet
leased = refl

destination : extract_destination_ipv4 packet ≡ some "10.0.0.2"
unfolding extract_destination_ipv4 show_address show
destination = refl

connected : lookup 8 proxy.connections ≡ some a
unfolding lookup
connected = refl

short : ltb_ℤ (effective_packet_mtu a) (pos (length packet)) ≡ false
unfolding effective_packet_mtu
short = refl

tun_packet_reaches_lease_example :
    pump_tun_to_clients net [] packet proxy ≡ some (ok tt, store net 8 (took packet a) proxy)
tun_packet_reaches_lease_example =
    tun_packet_reaches_lease net [] packet proxy 8 lease a pool-IsValid leased destination connected
      refl short refl

-- The same client with an MTU of 10
abbrev narrow : Connection
narrow = record a { packet_mtu = pos 10 }

abbrev narrow_proxy : ProxyServer
narrow_proxy = record proxy { connections = (8, narrow) ∷ (9, a) ∷ [] }

routed_to : session_for_destination narrow_proxy.pool (extract_destination_ipv4 packet) ≡ some 8
unfolding allocate select first_available is_available hosts parse_address show_address show
    split_on lookup insert normalize_preferred_address parse_octet session_for_destination
    extract_destination_ipv4
routed_to = refl

narrow_connected : lookup 8 narrow_proxy.connections ≡ some narrow
unfolding lookup
narrow_connected = refl

long : ltb_ℤ (effective_packet_mtu narrow) (pos (length packet)) ≡ true
unfolding effective_packet_mtu
long = refl

oversized_forward_drops_sender_example :
    (q : ProxyServer) × (pump_client_to_tun net json [] 9 packet narrow_proxy
      ≡ some (ended (some (value_error "payload exceeds negotiated packet MTU")), q))
    × (lookup 9 q.connections ≡ none)
    × (lookup 8 q.connections ≡ some narrow)
oversized_forward_drops_sender_example =
    oversized_forward_drops_sender net json [] 9 8 packet narrow_proxy narrow routed_to refl
      narrow_connected refl long

-- The second attempt comes after the deadline.
abbrev first_attempt : Attempt
first_attempt = record { asked_at = 0; wait = record { arrived = []; otherwise = gave_up 500 } }

abbrev late_attempt : Attempt
late_attempt = record { asked_at = 1000; wait = record { arrived = []; otherwise = gave_up 1500 } }

await_ready_ends_example :
    (r : Result (Dict String Value) × Connection) × (await_ready net json 1000
        (first_attempt ∷ late_attempt ∷ [])
        (hello a)
        a
      ≡ some r)
await_ready_ends_example =
    await_ready_ends net json 1000 (first_attempt ∷ []) [] late_attempt (hello a) a refl

run_forever_delays_example :
    All (λ d. (2 ≤ d) × (d ≤ 15)) (run_forever 2 15 2 (raised ∷ raised ∷ raised ∷ raised ∷ []))
run_forever_delays_example =
    run_forever_delays 2 15 2 (raised ∷ raised ∷ raised ∷ raised ∷ []) (omega arith) (omega arith)
      (omega arith)
