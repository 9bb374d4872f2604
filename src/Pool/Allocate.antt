-- ===== src/Pool/Allocate.antt =====
-- What `allocate` and `release` do for the routing of packets, and when a lease is refused.
use veil_python_stack.Prelude.{
  ℕ, zero, suc, ◌+◌, ◌-◌, ◌*◌, ◌/◌, ◌<◌, ◌≤◌, ◌≡◌, ◌≢◌, inl, inr, refl, String, true, false, Option,
  none, some, Bool-cases, Option-cases, arith, eq_iff, nat_eq, string_eq, ◌==◌,
}
use veil_python_stack.Prelude.Dict.{lookup, lookup-insert, lookup-remove}
use veil_python_stack.Errors.{Error, ok, err}
use veil_python_stack.Text.{split_on}
use veil_python_stack.Ipv4.{
  Interface, parse_address, show_address, hosts, address_count, network_address, broadcast_address,
  block,
}
use veil_python_stack.Ipv4.RoundTrip.{parse_address-show_address}
use veil_python_stack.Pool.{
  Lease, Pool, server_ip, is_available, select, new_lease, lease_or, grant, first_available,
  allocate, release, session_for_destination,
}
use veil_python_stack.Pool.Invariant.{IsUsable, IsValid, available-IsUsable, select-available}

parse_empty : parse_address "" ≡ none
unfolding parse_address split_on
parse_empty = refl

-- A leased text is not empty.
pub usable-ne-nil : (i : Interface) (ip : String) → IsUsable i ip → (ip == "") ≡ false
usable-ne-nil i ip u = elim (Bool-cases (ip == "")) [
  | inl y ↦ cc (parse_empty, (eq_iff ip "").0 y)
  | inr n ↦ n
]

abbrev Routes : Pool → ℕ → Lease → Pool → Type 0
Routes p s l p' =
    (lookup s p'.leases_by_session ≡ some l)
    × (session_for_destination p' (some l.client_ip) ≡ some s)
    × ((ip : String)
        → ip ≢ l.client_ip
        → session_for_destination p' (some ip) ≡ session_for_destination p (some ip))

module _ (p : Pool) (s : ℕ) (l : Lease) (p' : Pool) (v : IsValid p) where
  lease_or-Routes :
      (o : Option Lease) (q : Option String)
      → lookup s p.leases_by_session ≡ o
      → ((ip : String) → q ≡ some ip → is_available p ip ≡ true)
      → lease_or o p (grant p s q) ≡ (ok l, p')
      → Routes p s l p'
  unfolding session_for_destination
  lease_or-Routes (some lease) q e a h =
      let own = v.owned s lease e in
      let full = usable-ne-nil p.interface lease.client_ip (v.usable lease.client_ip s own) in
      (ground arith, ground arith, λ ip ne. ground arith)
  lease_or-Routes none none e a h = cc
  lease_or-Routes none (some ip) e a h =
      let (u, free) = available-IsUsable p ip (a ip refl) in
      let full = usable-ne-nil p.interface ip u in
      let new = new_lease p s ip in
      (
        ground (arith, lookup-insert s s new p.leases_by_session),
        ground (arith, lookup-insert ip ip s p.sessions_by_ip, eq_iff ip ip),
        λ j ne. ground (arith, lookup-insert ip j s p.sessions_by_ip, eq_iff ip j),
      )

-- On a pool that satisfies the invariant, after `allocate` returns a lease the session has it,
-- packets to its address go to the session, and packets to any other address go where they went
-- before.
pub allocate_routes :
    (p : Pool) (s : ℕ) (preferred : Option String) (l : Lease) (p' : Pool) (ip : String)
    → IsValid p
    → allocate p s preferred ≡ (ok l, p')
    → ip ≢ l.client_ip
    → (lookup s p'.leases_by_session ≡ some l)
      × (session_for_destination p' (some l.client_ip) ≡ some s)
      × (session_for_destination p' (some ip) ≡ session_for_destination p (some ip))
unfolding allocate
allocate_routes p s preferred l p' ip v h ne =
    let (leased, here, others) =
      lease_or-Routes p s l p' v (lookup s p.leases_by_session) (select p preferred) refl
        (select-available p preferred) h in
    (leased, here, others ip ne)

-- On a pool that satisfies the invariant, `release` ends the session's lease and frees its address;
-- packets to any other address go where they went before.
pub release_routes :
    (p : Pool) (s : ℕ) (l : Lease) (ip : String)
    → IsValid p
    → lookup s p.leases_by_session ≡ some l
    → ip ≢ l.client_ip
    → (lookup s (release p s).leases_by_session ≡ none)
      × (session_for_destination (release p s) (some l.client_ip) ≡ none)
      × (session_for_destination (release p s) (some ip) ≡ session_for_destination p (some ip))
unfolding release session_for_destination
release_routes p s l ip v h ne = (
  ground (arith, lookup-remove s s p.leases_by_session),
  ground (
    arith,
    lookup-remove l.client_ip l.client_ip p.sessions_by_ip,
    eq_iff l.client_ip l.client_ip,
  ),
  ground (arith, ne, lookup-remove l.client_ip ip p.sessions_by_ip, eq_iff l.client_ip ip),
)

-- The loop over the hosts finds nothing exactly when no host is available.
first_available-none :
    (p : Pool) (count n : ℕ)
    → first_available p count n ≡ none
    → (k : ℕ) → k < count
    → is_available p (show_address (n + k)) ≡ false
unfolding first_available
first_available-none p zero n h k lt = absurd (omega arith)
first_available-none p (suc count) n h zero lt =
    let e : n + 0 ≡ n = omega arith in rw e (ground arith)
first_available-none p (suc count) n h (suc k) lt =
    let e : n + suc k ≡ n + 1 + k = omega arith in
    rw e (first_available-none p count (n + 1) (ground arith) k (omega arith))

select-none :
    (p : Pool) (preferred : Option String)
    → select p preferred ≡ none
    → first_available p (hosts p.interface).1 (hosts p.interface).0 ≡ none
unfolding select
select-none p preferred h = ground arith

block_of : (q b n : ℕ) → q * b ≤ n → n < q * b + b → n / b * b ≡ q * b
block_of q b n lo hi = grind arith

-- The addresses strictly between the first and the last of a network are its hosts.
host_index :
    (i : Interface) (n : ℕ)
    → network_address i < n
    → n < broadcast_address i
    → (n - (hosts i).0 < (hosts i).1) × ((hosts i).0 + (n - (hosts i).0) ≡ n)
unfolding hosts
host_index i n lo hi = ground arith

-- An address of the network that is not available is leased, if it is not the server's.
taken :
    (p : Pool) (n : ℕ)
    → n < address_count
    → network_address p.interface < n
    → n < broadcast_address p.interface
    → show_address n ≢ server_ip p
    → is_available p (show_address n) ≡ false
    → (t : ℕ) × (lookup (show_address n) p.sessions_by_ip ≡ some t)
unfolding is_available
taken p n in_range lo hi other h =
    let b = block p.interface.prefix in
    let inside = block_of (p.interface.ip / b) b n (omega arith) (omega arith) in
    elim (Option-cases (lookup (show_address n) p.sessions_by_ip)) [
      | inl free ↦ absurd (
          ground (
            arith,
            parse_address-show_address n in_range,
            eq_iff (show_address n) (server_ip p),
            inside,
          ))
      | inr leased ↦ leased
    ]

lease_or-err :
    (p : Pool) (s : ℕ) (o : Option Lease) (q : Option String) (e : Error) (p' : Pool)
    → lease_or o p (grant p s q) ≡ (err e, p')
    → (p' ≡ p) × (o ≡ none) × (q ≡ none)
lease_or-err p s (some l) q e p' h = cc
lease_or-err p s none none e p' h = (ground arith, refl, refl)
lease_or-err p s none (some ip) e p' h = cc

-- A session is refused a lease only if it has none and every address strictly between the first and
-- the last of the network, but for the server's, is leased; the pool is left as it was.
pub allocate_exhausted :
    (p : Pool) (s : ℕ) (preferred : Option String) (e : Error) (p' : Pool) (n : ℕ)
    → allocate p s preferred ≡ (err e, p')
    → n < address_count
    → network_address p.interface < n
    → n < broadcast_address p.interface
    → show_address n ≢ server_ip p
    → (p' ≡ p)
      × (lookup s p.leases_by_session ≡ none)
      × ((t : ℕ) × (lookup (show_address n) p.sessions_by_ip ≡ some t))
unfolding allocate
allocate_exhausted p s preferred e p' n h in_range lo hi other =
    let (same, new, nothing) =
      lease_or-err p s (lookup s p.leases_by_session) (select p preferred) e p' h in
    (
      same,
      new,
      let (index, found) = host_index p.interface n lo hi in
          taken p n in_range lo hi other (
            rw found at (
              first_available-none p (hosts p.interface).1 (hosts p.interface).0
                (select-none p preferred nothing) (n - (hosts p.interface).0) index)),
    )
