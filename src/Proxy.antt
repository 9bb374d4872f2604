-- ===== src/Proxy.antt =====
-- veil_core/linux_proxy.py, `LinuxVpnProxyServer`: how packets go between the TUN device and the
-- clients' connections. The address pool is in Pool.antt. What other tasks do to a connection while
-- `_send_packet_with_retry` sleeps is given as a list of changes; `none` says that this list ended.
pub mod Routing
pub mod TunConfig
pub mod Bridge
pub mod Run
pub mod Serve
pub mod Backoff
use veil_python_stack.Prelude.{
  ℕ, ◌+◌, ◌*◌, ◌/◌, String, Bool, true, false, not, ◌&&◌, Option, none, some, List, [], ◌∷◌, ◌++◌,
  length, ltb, get_or, nat_eq, string_eq, ◌==◌, if◌then◌else◌,
}
use veil_python_stack.Prelude.Dict.{Dict, lookup, insert, remove}
use veil_python_stack.Errors.{
  Error, Result, ok, err, runtime_error, value_error, type_error, key_error, attribute_error,
  timeout_error, cancelled_error, eof_error, connection_error,
}
use veil_python_stack.Message.{Value, array, object, text, Items, nil, cons, Json, str_of, truthy}
use veil_python_stack.Ipv4.{show_address}
use veil_python_stack.Pool.{Pool, Lease, allocate, release, session_for_destination}
use veil_python_stack.Vpn.{Connection, Net, send_packet, close, is_closed}

-- `_extract_destination_ipv4`
unfoldable pub extract_destination_ipv4 : List ℕ → Option String
extract_destination_ipv4 payload =
    if ltb (length payload) 20
    then none
    else if not (get_or payload 0 0 / 16 == 4)
    then none
    else some (
        show_address (
          ((get_or payload 16 0 * 256 + get_or payload 17 0) * 256 + get_or payload 18 0) * 256
          + get_or payload 19 0))

-- The server with what was written to its TUN device
pub record ProxyServer : Type 0 where
  pub routes : List String
  pub pool : Pool
  pub connections : Dict ℕ Connection
  pub written : List (List ℕ)

abbrev pub texts : List String → Items
texts [] = nil
texts (s ∷ ss) = cons (text s) (texts ss)

abbrev requested : Json → Option Value → Option String
requested json none = none
requested json (some v) = if truthy v then some (str_of json v) else none

abbrev route_entry : List String → Dict String Value
route_entry [] = []
route_entry (r ∷ rs) = ("routes", array (texts (r ∷ rs))) ∷ []

abbrev lease_payload : List String → Lease → Dict String Value
lease_payload routes l =
    ("tunnel_mode", text "dynamic")
    ∷ ("tun_address", text l.client_address_cidr)
    ∷ ("tun_peer", text "")
    ∷ ("tun_network", text l.network_cidr)
    ∷ route_entry routes

abbrev with_pool : ProxyServer → Result Lease × Pool → Result (Dict String Value) × ProxyServer
with_pool p (ok l, pool) = (ok (lease_payload p.routes l), record p { pool = pool })
with_pool p (err e, pool) = (err e, record p { pool = pool })

-- `_build_ready_payload`
unfoldable pub build_ready_payload :
    Json → Connection → ProxyServer → Result (Dict String Value) × ProxyServer
unfolding truthy str_of
build_ready_payload json c p = with_pool p (
    allocate p.pool c.session_id
      (requested json (lookup "requested_tun_address" c.peer_parameters)))

-- `_register_connection`, without the task that it creates
unfoldable pub register_connection : Connection → ProxyServer → ProxyServer
register_connection c p = record p { connections = insert c.session_id c p.connections }

module _ (net : Net) where
  abbrev again_or_done :
      (Connection → Option (Result (Unit {0}) × Connection))
      → Result Bool × Connection
      → Option (Result (Unit {0}) × Connection)
  again_or_done again (err e, c) = some (err e, c)
  again_or_done again (ok true, c) = some (ok tt, c)
  again_or_done again (ok false, c) =
      let more = again c in
      if is_closed c then some (err (runtime_error "VPN connection is closed"), c) else more

  -- `_send_packet_with_retry`
  unfoldable pub send_packet_with_retry :
      List (Connection → Connection) → List ℕ → Connection → Option (Result (Unit {0}) × Connection)
  send_packet_with_retry [] payload c = again_or_done (λ c'. none) (send_packet net payload c)
  send_packet_with_retry (change ∷ changes) payload c =
      again_or_done (λ c'. send_packet_with_retry changes payload (change c'))
        (send_packet net payload c)

  abbrev pub store : ℕ → Connection → ProxyServer → ProxyServer
  store s c p = record p { connections = insert s c p.connections }

  -- `except (RuntimeError, ValueError): continue`
  abbrev pub swallow : Error → Result (Unit {0})
  swallow (runtime_error m) = ok tt
  swallow (value_error m) = ok tt
  swallow e = err e

  abbrev pub routed :
      ℕ
      → ProxyServer
      → Option (Result (Unit {0}) × Connection)
      → Option (Result (Unit {0}) × ProxyServer)
  routed s p none = none
  routed s p (some (ok u, c)) = some (ok tt, store s c p)
  routed s p (some (err e, c)) = some (swallow e, store s c p)

  abbrev pub route_to :
      List (Connection → Connection)
      → List ℕ
      → ℕ
      → Option Connection
      → ProxyServer
      → Option (Result (Unit {0}) × ProxyServer)
  route_to changes packet s none p = some (ok tt, p)
  route_to changes packet s (some c) p =
      if is_closed c then some (ok tt, p) else routed s p (send_packet_with_retry changes packet c)

  abbrev pub route :
      List (Connection → Connection)
      → List ℕ
      → Option ℕ
      → ProxyServer
      → Option (Result (Unit {0}) × ProxyServer)
  route changes packet none p = some (ok tt, p)
  route changes packet (some s) p = route_to changes packet s (lookup s p.connections) p

  -- A round of the loop of `_pump_tun_to_clients` with the packet that it read
  unfoldable pub pump_tun_to_clients :
      List (Connection → Connection)
      → List ℕ
      → ProxyServer
      → Option (Result (Unit {0}) × ProxyServer)
  unfolding send_packet_with_retry session_for_destination
  pump_tun_to_clients changes [] p = some (err eof_error, p)
  pump_tun_to_clients changes (b ∷ bs) p =
      route changes (b ∷ bs) (session_for_destination p.pool (extract_destination_ipv4 (b ∷ bs))) p

  module _ (json : Json) where
    abbrev pub close_removed : Option Connection → Option Connection
    close_removed none = none
    close_removed (some c) =
        if is_closed c then some c else some ((close net json "server_session_removed" c).1)

    -- `_remove_connection`: the connection that was removed, closed, and the server
    unfoldable pub remove_connection : ℕ → ProxyServer → Option Connection × ProxyServer
    unfolding close release
    remove_connection s p = (
      close_removed (lookup s p.connections),
      record p { connections = remove s p.connections; pool = release p.pool s },
    )

    -- How a round of `_pump_client_to_tun` goes on: the task's loop goes on, or the task ended, with
    -- an exception or without one, and the `finally` block has run.
    pub data Round : Type 0 where
      goes_on : Round
      ended : Option Error → Round

    -- `except (ConnectionError, EOFError, RuntimeError): pass`
    abbrev pub left_over : Error → Option Error
    left_over (runtime_error m) = none
    left_over connection_error = none
    left_over eof_error = none
    left_over e = some e

    abbrev pub write_tun : List ℕ → ProxyServer → Option (Round × ProxyServer)
    write_tun payload p = some (goes_on, record p { written = p.written ++ payload ∷ [] })

    abbrev pub without : ℕ → ProxyServer → ProxyServer
    without s p = (remove_connection s p).1

    abbrev pub forwarded :
        (from to : ℕ)
        → ProxyServer
        → Option (Result (Unit {0}) × Connection)
        → Option (Round × ProxyServer)
    forwarded from to p none = none
    forwarded from to p (some (ok u, c)) = some (goes_on, store to c p)
    forwarded from to p (some (err e, c)) = some (ended (left_over e), without from (store to c p))

    abbrev pub forward_to :
        List (Connection → Connection)
        → (from to : ℕ) → List ℕ
        → Option Connection
        → ProxyServer
        → Option (Round × ProxyServer)
    forward_to changes from to payload none p = write_tun payload p
    forward_to changes from to payload (some c) p =
        if is_closed c
        then write_tun payload p
        else forwarded from to p (send_packet_with_retry changes payload c)

    abbrev pub forward :
        List (Connection → Connection)
        → ℕ
        → Option ℕ
        → List ℕ
        → ProxyServer
        → Option (Round × ProxyServer)
    forward changes from none payload p = write_tun payload p
    forward changes from (some to) payload p =
        if to == from
        then write_tun payload p
        else forward_to changes from to payload (lookup to p.connections) p

    -- A round of the loop of `_pump_client_to_tun` of session `from` with the packet it received
    unfoldable pub pump_client_to_tun :
        List (Connection → Connection) → ℕ → List ℕ → ProxyServer → Option (Round × ProxyServer)
    unfolding send_packet_with_retry session_for_destination remove_connection
    pump_client_to_tun changes from payload p =
        forward changes from (session_for_destination p.pool (extract_destination_ipv4 payload))
          payload p
