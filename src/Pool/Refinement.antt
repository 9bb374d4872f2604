-- ===== src/Pool/Refinement.antt =====
-- What the pool promises, without its dictionaries: each session has an address or none.
use veil_python_stack.Prelude.{
  ℕ, ◌≡◌, ◌≢◌, refl, ap, ◌∙◌, inl, inr, true, subst, String, Option, none, some, List, [], ◌∷◌, ◌<◌,
  arith, nat_eq, string_eq, Option-cases,
}
use veil_python_stack.Prelude.Dict.{lookup, insert, remove, lookup-insert, lookup-remove}
use veil_python_stack.Errors.{err, Error, runtime_error}
use veil_python_stack.Ipv4.{
  Interface, show_address, network_address, broadcast_address, address_count,
}
use veil_python_stack.Pool.{
  Pool, Lease, empty, is_available, select, new_lease, lease_or, grant, allocate, release,
  drop_lease,
}
use veil_python_stack.Pool.Invariant.{
  IsUsable, IsValid, Operation, allocated, released, step, step-IsValid, run, run-IsValid,
  available-IsUsable, select-available,
}
use veil_python_stack.Pool.Allocate.{allocate_exhausted}

-- The address of each session, if it has one
abbrev pub Assignment : Type 0
Assignment = ℕ → Option String

abbrev pub SameBut : ℕ → Assignment → Assignment → Type 0
SameBut s a b = (t : ℕ) → t ≢ s → b t ≡ a t

-- Every address between the first and the last of the network, but for the server's, is assigned.
abbrev pub IsFull : Interface → Assignment → Type 0
IsFull i a =
    (n : ℕ)
    → n < address_count
    → network_address i < n
    → n < broadcast_address i
    → show_address n ≢ show_address i.ip
    → (t : ℕ) × (a t ≡ some (show_address n))

-- The specification: a session keeps its address, or gets a usable one that no session has, or gets
-- none as all are assigned; a released session has none. Other sessions keep theirs.
pub data Step (i : Interface) (a b : Assignment) : Operation → Type 0 where
  keeps :
      (s : ℕ) (preferred : Option String) (ip : String)
      → a s ≡ some ip
      → ((t : ℕ) → b t ≡ a t)
      → Step i a b (allocated s preferred)
  grants :
      (s : ℕ) (preferred : Option String) (ip : String)
      → a s ≡ none
      → IsUsable i ip
      → ((t : ℕ) → a t ≢ some ip)
      → b s ≡ some ip
      → SameBut s a b
      → Step i a b (allocated s preferred)
  refuses :
      (s : ℕ) (preferred : Option String)
      → a s ≡ none
      → IsFull i a
      → ((t : ℕ) → b t ≡ a t)
      → Step i a b (allocated s preferred)
  releases : (s : ℕ) → b s ≡ none → SameBut s a b → Step i a b (released s)

pub data Steps (i : Interface) : Assignment → List Operation → Assignment → Type 0 where
  stay : (a : Assignment) → Steps i a [] a
  go :
      {a b c : Assignment} {x : Operation} {xs : List Operation}
      → Step i a b x
      → Steps i b xs c
      → Steps i a (x ∷ xs) c

abbrev pub address_of : Option Lease → Option String
address_of none = none
address_of (some lease) = some lease.client_ip

abbrev pub assigned : Pool → Assignment
assigned p s = address_of (lookup s p.leases_by_session)

drop_lease-same :
    (o : Option Lease) (p : Pool)
    → ((drop_lease o p).interface ≡ p.interface)
      × ((drop_lease o p).leases_by_session ≡ p.leases_by_session)
drop_lease-same none p = (refl, refl)
drop_lease-same (some lease) p = (refl, refl)

-- An address that no dictionary entry has is no session's.
unassigned :
    (p : Pool) (ip : String) (t : ℕ)
    → IsValid p
    → lookup ip p.sessions_by_ip ≡ none
    → assigned p t ≢ some ip
unassigned p ip t v free h = elim (Option-cases (lookup t p.leases_by_session)) [
  | inl gone ↦ cc (h, ap address_of gone)
  | inr (l, has) ↦ cc (h, free, ap address_of has, v.owned t l has)
]

release-Step :
    (p : Pool) (s : ℕ)
    → IsValid p
    → Step p.interface (assigned p) (assigned (release p s)) (released s)
unfolding release
release-Step p s v =
    let (i, same) =
      drop_lease-same (lookup s p.leases_by_session)
        (record p { leases_by_session = remove s p.leases_by_session }) in
    let gone : lookup s (remove s p.leases_by_session) ≡ none =
      ground (arith, lookup-remove s s p.leases_by_session) in
    let stays : (t : ℕ)
        → t ≢ s
        → lookup t (remove s p.leases_by_session) ≡ lookup t p.leases_by_session =
      (λ t ne. ground (arith, lookup-remove s t p.leases_by_session)) in
    releases s (ap (λ d. address_of (lookup s d)) same ∙ ap address_of gone)
      (λ t ne. ap (λ d. address_of (lookup t d)) same ∙ ap address_of (stays t ne))

grant-Step :
    (p : Pool) (s : ℕ) (preferred : Option String) (o : Option Lease) (q : Option String)
    → IsValid p
    → lookup s p.leases_by_session ≡ o
    → ((ip : String) → q ≡ some ip → is_available p ip ≡ true)
    → (q ≡ none → o ≡ none → IsFull p.interface (assigned p))
    → Step p.interface
        (assigned p)
        (assigned (lease_or o p (grant p s q)).1)
        (allocated s preferred)
grant-Step p s preferred (some l) q v e a full =
    keeps s preferred l.client_ip (ap address_of e) (λ t. refl)
grant-Step p s preferred none none v e a full =
    refuses s preferred (ap address_of e) (full refl refl) (λ t. refl)
grant-Step p s preferred none (some ip) v e a full =
    let (u, free) = available-IsUsable p ip (a ip refl) in
    let new = new_lease p s ip in
    let given : lookup s (insert s new p.leases_by_session) ≡ some new =
      ground (arith, lookup-insert s s new p.leases_by_session) in
    let stays : (t : ℕ)
        → t ≢ s
        → lookup t (insert s new p.leases_by_session) ≡ lookup t p.leases_by_session =
      (λ t ne. ground (arith, lookup-insert s t new p.leases_by_session)) in
    grants s preferred ip (ap address_of e) u (λ t. unassigned p ip t v free) (ap address_of given)
      (λ t ne. ap address_of (stays t ne))

abbrev no_address : Error
no_address = runtime_error "No free client addresses left in tunnel network"

exhausted_now :
    (p : Pool) (s : ℕ) (preferred : Option String)
    → select p preferred ≡ none
    → lookup s p.leases_by_session ≡ none
    → allocate p s preferred ≡ (err no_address, p)
unfolding allocate
exhausted_now p s preferred nothing new = rw (nothing, new) refl

select-IsFull :
    (p : Pool) (s : ℕ) (preferred : Option String)
    → IsValid p
    → select p preferred ≡ none
    → lookup s p.leases_by_session ≡ none
    → IsFull p.interface (assigned p)
unfolding allocate
select-IsFull p s preferred v nothing new n in_range lo hi other =
    let refused = exhausted_now p s preferred nothing new in
    let (same, gone, (t, has)) =
      allocate_exhausted p s preferred no_address p n refused in_range lo hi other in
    let (l, leased, named) = v.backed (show_address n) t has in
    (t, ap address_of leased ∙ ap some named)

allocate-Step :
    (p : Pool) (s : ℕ) (preferred : Option String)
    → IsValid p
    → Step p.interface (assigned p) (assigned (allocate p s preferred).1) (allocated s preferred)
unfolding allocate
allocate-Step p s preferred v =
    grant-Step p s preferred (lookup s p.leases_by_session) (select p preferred) v refl
      (select-available p preferred) (λ nothing new. select-IsFull p s preferred v nothing new)

step-Step :
    (p : Pool) (x : Operation) → IsValid p → Step p.interface (assigned p) (assigned (step p x)) x
step-Step p (allocated s preferred) v = allocate-Step p s preferred v
step-Step p (released s) v = release-Step p s v

lease_or-interface :
    (p : Pool) (s : ℕ) (o : Option Lease) (q : Option String)
    → (lease_or o p (grant p s q)).1.interface ≡ p.interface
lease_or-interface p s (some l) q = refl
lease_or-interface p s none none = refl
lease_or-interface p s none (some ip) = refl

step-interface : (p : Pool) (x : Operation) → (step p x).interface ≡ p.interface
unfolding allocate release
step-interface p (allocated s preferred) =
    lease_or-interface p s (lookup s p.leases_by_session) (select p preferred)
step-interface p (released s) =
    (drop_lease-same (lookup s p.leases_by_session)
      (record p { leases_by_session = remove s p.leases_by_session })).0

run_from-Steps :
    (p : Pool) (xs : List Operation)
    → IsValid p
    → Steps p.interface (assigned p) xs (assigned (run p xs))
unfolding run
run_from-Steps p [] v = stay (assigned p)
run_from-Steps p (x ∷ xs) v = go (step-Step p x v) (
    subst (λ i. Steps i (assigned (step p x)) xs (assigned (run (step p x) xs)))
      (step-interface p x) (run_from-Steps (step p x) xs (step-IsValid p x v)))

-- The pool refines the specification: any sequence of `allocate` and `release` on a new pool is a
-- sequence of the specification's steps, from the assignment in which no session has an address to the
-- one that the leases give.
pub run-Steps :
    (i : Interface) (xs : List Operation) → Steps i (λ s. none) xs (assigned (run (empty i) xs))
unfolding lookup run
run-Steps i xs = run_from-Steps (empty i) xs (run-IsValid i [])
