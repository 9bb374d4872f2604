-- ===== src/Pool.antt =====
-- veil_core/linux_proxy.py, `LinuxClientAddressPool`: one IPv4 address of the tunnel's network for
-- each session. Two dictionaries hold the leases, by session and by address.
pub mod Invariant
pub mod Allocate
pub mod Refinement
use veil_python_stack.Prelude.{
  ℕ, zero, suc, ◌+◌, String, Bool, true, false, not, ◌&&◌, Option, none, some, [], nat_eq,
  string_eq, ◌==◌, if◌then◌else◌,
}
use veil_python_stack.Prelude.Dict.{Dict, lookup, insert, remove}
use veil_python_stack.Errors.{Result, ok, err, value_error, runtime_error}
use veil_python_stack.Text.{cat, show}
use veil_python_stack.Ipv4.{
  Interface, parse_interface, parse_address, show_address, show_network, network_address,
  broadcast_address, contains, hosts,
}

-- `LinuxClientTunnelLease`
pub record Lease : Type 0 where
  pub session_id : ℕ
  pub client_ip : String
  pub client_address_cidr : String
  pub peer_address : String
  pub network_cidr : String

pub record Pool : Type 0 where
  pub interface : Interface
  pub leases_by_session : Dict ℕ Lease
  pub sessions_by_ip : Dict String ℕ

-- `self._server_ip`
abbrev pub server_ip : Pool → String
server_ip p = show_address p.interface.ip

abbrev pub empty : Interface → Pool
empty i = record { interface = i; leases_by_session = []; sessions_by_ip = [] }

abbrev pool_of : Option Interface → Result Pool
pool_of none = err (value_error "Linux multi-client VPN allocator currently supports IPv4 only")
pool_of (some i) = ok (empty i)

-- `__init__`
unfoldable pub new_pool : String → Result Pool
unfolding parse_interface
new_pool server_address_cidr = pool_of (parse_interface server_address_cidr)

abbrev is_free : Option ℕ → Bool
is_free none = true
is_free (some s) = false

abbrev pub is_candidate : Pool → String → Option ℕ → Bool
is_candidate p ip_text none = false
is_candidate p ip_text (some n) =
    contains p.interface n
    && (not (n == network_address p.interface)
        && (not (n == broadcast_address p.interface)
            && (not (ip_text == server_ip p) && is_free (lookup ip_text p.sessions_by_ip))))

-- `_is_available`
unfoldable pub is_available : Pool → String → Bool
is_available p ip_text = is_candidate p ip_text (parse_address ip_text)

abbrev pub ip_of : Option Interface → Option ℕ → Option ℕ
ip_of (some i) address = some i.ip
ip_of none address = address

abbrev pub if_available : Pool → Option ℕ → Option String
if_available p none = none
if_available p (some n) = if is_available p (show_address n) then some (show_address n) else none

-- `_normalize_preferred_address`: an interface or an address, in the normal form of its text.
unfoldable pub normalize_preferred_address : Pool → Option String → Option String
normalize_preferred_address p none = none
normalize_preferred_address p (some text) =
    if text == "" then none else if_available p (ip_of (parse_interface text) (parse_address text))

-- The loop over `self._network.hosts()`: `count` hosts are left, the next is `n`.
unfoldable pub first_available : Pool → ℕ → ℕ → Option String
first_available p zero n = none
first_available p (suc count) n =
    let rest = first_available p count (n + 1) in
    if is_available p (show_address n) then some (show_address n) else rest

abbrev pub or_first : Option String → Option String → Option String
or_first (some ip) other = some ip
or_first none other = other

-- The address that `allocate` selects for a session without a lease.
unfoldable pub select : Pool → Option String → Option String
unfolding hosts
select p preferred =
    or_first (normalize_preferred_address p preferred)
      (first_available p (hosts p.interface).1 (hosts p.interface).0)

abbrev pub new_lease : Pool → ℕ → String → Lease
new_lease p s ip = record {
  session_id = s;
  client_ip = ip;
  client_address_cidr = cat ip (cat "/" (show p.interface.prefix));
  peer_address = server_ip p;
  network_cidr = show_network p.interface;
}

abbrev pub grant : Pool → ℕ → Option String → Result Lease × Pool
grant p s none = (err (runtime_error "No free client addresses left in tunnel network"), p)
grant p s (some ip) = (
  ok (new_lease p s ip),
  record p {
    leases_by_session = insert s (new_lease p s ip) p.leases_by_session;
    sessions_by_ip = insert ip s p.sessions_by_ip;
  },
)

abbrev pub lease_or : Option Lease → Pool → Result Lease × Pool → Result Lease × Pool
lease_or (some lease) p new = (ok lease, p)
lease_or none p new = new

unfoldable pub allocate : Pool → ℕ → Option String → Result Lease × Pool
allocate p s preferred = lease_or (lookup s p.leases_by_session) p (grant p s (select p preferred))

abbrev pub drop_lease : Option Lease → Pool → Pool
drop_lease none p = p
drop_lease (some lease) p = record p { sessions_by_ip = remove lease.client_ip p.sessions_by_ip }

unfoldable pub release : Pool → ℕ → Pool
release p s =
    drop_lease (lookup s p.leases_by_session)
      (record p { leases_by_session = remove s p.leases_by_session })

-- `session_for_destination`
unfoldable pub session_for_destination : Pool → Option String → Option ℕ
session_for_destination p none = none
session_for_destination p (some ip) = if ip == "" then none else lookup ip p.sessions_by_ip
