-- ===== src/Pool/Invariant.antt =====
-- The two dictionaries of the pool agree, and every leased address may be leased.
use veil_python_stack.Prelude.{
  ℕ, ◌≡◌, ◌≢◌, inl, inr, refl, sym, ap, ◌∙◌, String, true, Option, none, some, List, [], ◌∷◌,
  Bool-cases, Option-cases, subst, zero, suc, ◌+◌, arith, eq_iff, nat_eq, string_eq, ◌==◌,
}
use veil_python_stack.Prelude.Dict.{lookup, remove, lookup-insert, lookup-remove}
use veil_python_stack.Ipv4.{
  Interface, hosts, parse_interface, parse_address, show_address, network_address,
  broadcast_address, contains,
}
use veil_python_stack.Pool.{
  Lease, Pool, server_ip, empty, is_available, select, normalize_preferred_address, if_available,
  ip_of, first_available, new_lease, drop_lease, lease_or, grant, allocate, release,
}

some_eq : {a b : ℕ} → some a ≡ some b → a ≡ b
some_eq h = cc

-- A text that may be leased in the network of `i`: the text of an address of the network that is
-- neither its first nor its last, nor the server's.
pub record IsUsable (i : Interface) (ip : String) : Type 0 where
  pub address : ℕ
  pub parsed : parse_address ip ≡ some address
  pub inside : contains i address ≡ true
  pub not_network : address ≢ network_address i
  pub not_broadcast : address ≢ broadcast_address i
  pub not_server : ip ≢ show_address i.ip

pub record IsValid (p : Pool) : Type 0 where
  pub owned :
      (s : ℕ) (l : Lease)
      → lookup s p.leases_by_session ≡ some l
      → lookup l.client_ip p.sessions_by_ip ≡ some s
  pub backed :
      (ip : String) (s : ℕ)
      → lookup ip p.sessions_by_ip ≡ some s
      → (l : Lease) × (lookup s p.leases_by_session ≡ some l) × (l.client_ip ≡ ip)
  pub usable : (ip : String) (s : ℕ) → lookup ip p.sessions_by_ip ≡ some s → IsUsable p.interface ip
  pub named : (s : ℕ) (l : Lease) → lookup s p.leases_by_session ≡ some l → l.session_id ≡ s

empty-IsValid : (i : Interface) → IsValid (empty i)
unfolding lookup
empty-IsValid i = record {
  owned = λ s l h. cc;
  backed = λ ip s h. cc;
  usable = λ ip s h. cc;
  named = λ s l h. cc;
}

pub available-IsUsable :
    (p : Pool) (ip : String)
    → is_available p ip ≡ true
    → IsUsable p.interface ip × (lookup ip p.sessions_by_ip ≡ none)
unfolding is_available
available-IsUsable p ip h = elim (Option-cases (parse_address ip)) [
  | inl bad ↦ absurd (ground arith)
  | inr (n, good) ↦ (
    record {
      address = n;
      parsed = good;
      inside = ground arith;
      not_network = ground arith;
      not_broadcast = ground arith;
      not_server = ground (arith, eq_iff ip (server_ip p));
    },
    ground arith,
  )
]

if_available-available :
    (p : Pool) (o : Option ℕ) (ip : String) → if_available p o ≡ some ip → is_available p ip ≡ true
if_available-available p none ip h = cc
if_available-available p (some n) ip h = elim (Bool-cases (is_available p (show_address n))) [
  | inl y ↦ ground arith
  | inr n ↦ ground arith
]

normalize-available :
    (p : Pool) (preferred : Option String) (ip : String)
    → normalize_preferred_address p preferred ≡ some ip
    → is_available p ip ≡ true
unfolding normalize_preferred_address
normalize-available p none ip h = cc
normalize-available p (some text) ip h = elim (Bool-cases (text == "")) [
  | inl y ↦ ground arith
  | inr n ↦
      if_available-available p (ip_of (parse_interface text) (parse_address text)) ip (rw n at h)
]

pub first_available-available :
    (p : Pool) (count n : ℕ) (ip : String)
    → first_available p count n ≡ some ip
    → is_available p ip ≡ true
unfolding first_available
first_available-available p zero n ip h = cc
first_available-available p (suc count) n ip h =
    ground (arith, first_available-available p count (n + 1) ip)

pub select-available :
    (p : Pool) (preferred : Option String) (ip : String)
    → select p preferred ≡ some ip
    → is_available p ip ≡ true
unfolding select
select-available p preferred ip h = ground (
  arith,
  normalize-available p preferred ip,
  first_available-available p (hosts p.interface).1 (hosts p.interface).0 ip,
)

module _ (p : Pool) (v : IsValid p) (s : ℕ) where
  grant-IsValid :
      (ip : String)
      → lookup s p.leases_by_session ≡ none
      → IsUsable p.interface ip
      → lookup ip p.sessions_by_ip ≡ none
      → IsValid (grant p s (some ip)).1
  grant-IsValid ip new u free = record {
    owned = λ t l h. ground (
      arith,
      lookup-insert s t (new_lease p s ip) p.leases_by_session,
      lookup-insert ip l.client_ip s p.sessions_by_ip,
      eq_iff ip l.client_ip,
      v.owned t l,
    );
    backed = λ j t h. elim (Bool-cases (ip == j)) [
      | inl y ↦ (
        new_lease p s ip,
        ground (
          arith,
          lookup-insert ip j s p.sessions_by_ip,
          lookup-insert s t (new_lease p s ip) p.leases_by_session,
        ),
        (eq_iff ip j).0 y,
      )
      | inr n ↦
          let (l, found, same) =
            v.backed j t (ground (arith, lookup-insert ip j s p.sessions_by_ip)) in
          (l, ground (arith, lookup-insert s t (new_lease p s ip) p.leases_by_session), same)
    ];
    usable = λ j t h. elim (Bool-cases (ip == j)) [
      | inl y ↦ subst (IsUsable p.interface) ((eq_iff ip j).0 y) u
      | inr n ↦ v.usable j t (ground (arith, lookup-insert ip j s p.sessions_by_ip))
    ];
    named = λ t l h.
        ground (arith, lookup-insert s t (new_lease p s ip) p.leases_by_session, v.named t l);
  }

  drop-IsValid :
      (o : Option Lease)
      → lookup s p.leases_by_session ≡ o
      → IsValid (drop_lease o (record p { leases_by_session = remove s p.leases_by_session }))
  drop-IsValid none e = record {
    owned = λ t l h. ground (arith, lookup-remove s t p.leases_by_session, v.owned t l);
    backed = λ j t h.
        let (l, found, same) = v.backed j t h in
        (l, ground (arith, lookup-remove s t p.leases_by_session), same);
    usable = v.usable;
    named = λ t l h. ground (arith, lookup-remove s t p.leases_by_session, v.named t l);
  }
  drop-IsValid (some lease) e = record {
    owned = λ t l h. ground (
      arith,
      lookup-remove s t p.leases_by_session,
      lookup-remove lease.client_ip l.client_ip p.sessions_by_ip,
      eq_iff lease.client_ip l.client_ip,
      v.owned t l,
      v.owned s lease,
    );
    backed = λ j t h.
        let (l, found, same) =
          v.backed j t (ground (arith, lookup-remove lease.client_ip j p.sessions_by_ip)) in
        (
          l,
          ground (
            arith,
            lookup-remove s t p.leases_by_session,
            lookup-remove lease.client_ip j p.sessions_by_ip,
            eq_iff lease.client_ip j,
          ),
          same,
        );
    usable =
        λ j t h. v.usable j t (ground (arith, lookup-remove lease.client_ip j p.sessions_by_ip));
    named = λ t l h. ground (arith, lookup-remove s t p.leases_by_session, v.named t l);
  }

  -- `release` keeps the invariant.
  pub release-IsValid : IsValid (release p s)
  unfolding release
  release-IsValid = drop-IsValid (lookup s p.leases_by_session) refl

  lease_or-IsValid :
      (o : Option Lease) (q : Option String)
      → lookup s p.leases_by_session ≡ o
      → ((ip : String) → q ≡ some ip → is_available p ip ≡ true)
      → IsValid (lease_or o p (grant p s q)).1
  lease_or-IsValid (some lease) q e h = v
  lease_or-IsValid none none e h = v
  lease_or-IsValid none (some ip) e h =
      let (u, free) = available-IsUsable p ip (h ip refl) in grant-IsValid ip e u free

  -- `allocate` keeps the invariant, also where it raises.
  pub allocate-IsValid : (preferred : Option String) → IsValid (allocate p s preferred).1
  unfolding allocate
  allocate-IsValid preferred =
      lease_or-IsValid (lookup s p.leases_by_session) (select p preferred) refl
        (select-available p preferred)

-- What the server does with its pool.
pub data Operation : Type 0 where
  allocated : ℕ → Option String → Operation
  released : ℕ → Operation

abbrev pub step : Pool → Operation → Pool
step p (allocated s preferred) = (allocate p s preferred).1
step p (released s) = release p s

unfoldable pub run : Pool → List Operation → Pool
run p [] = p
run p (x ∷ xs) = run (step p x) xs

pub step-IsValid : (p : Pool) (x : Operation) → IsValid p → IsValid (step p x)
step-IsValid p (allocated s preferred) v = allocate-IsValid p v s preferred
step-IsValid p (released s) v = release-IsValid p v s

run_from-IsValid : (p : Pool) (xs : List Operation) → IsValid p → IsValid (run p xs)
unfolding run
run_from-IsValid p [] v = v
run_from-IsValid p (x ∷ xs) v = run_from-IsValid (step p x) xs (step-IsValid p x v)

-- After any sequence of `allocate` and `release` on a new pool, the two dictionaries are inverse to
-- each other, each lease carries its session, and every leased text is that of an address of the
-- network that is neither its first nor its last, nor the server's.
pub run-IsValid : (i : Interface) (xs : List Operation) → IsValid (run (empty i) xs)
run-IsValid i xs = run_from-IsValid (empty i) xs (empty-IsValid i)

-- After any sequence of `allocate` and `release` on a new pool, two sessions that have leases of the
-- same address are one session.
pub run_distinct :
    (i : Interface) (xs : List Operation) (s t : ℕ) (l m : Lease)
    → lookup s (run (empty i) xs).leases_by_session ≡ some l
    → lookup t (run (empty i) xs).leases_by_session ≡ some m
    → l.client_ip ≡ m.client_ip
    → s ≡ t
run_distinct i xs s t l m hs ht same =
    let v = run-IsValid i xs in
    some_eq (
      sym (v.owned s l hs)
      ∙ ap (λ ip. lookup ip (run (empty i) xs).sessions_by_ip) same
      ∙ v.owned t m ht)
