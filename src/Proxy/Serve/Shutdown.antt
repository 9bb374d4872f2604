-- ===== src/Proxy/Serve/Shutdown.antt =====
-- What the end of `serve_forever` leaves.
use veil_python_stack.Prelude.{
  ℕ, ◌≡◌, refl, inl, inr, Bool, true, false, Option, none, some, List, [], ◌∷◌, arith, nat_eq,
  string_eq, ◌==◌, All, All-append, or_default, if-cases, Option-cases, Bool-cases, ◌||◌, subst,
}
use veil_python_stack.Prelude.Dict.{Dict, lookup, remove, lookup-remove, beq_refl}
use veil_python_stack.Errors.{Error, Result, ok, err}
use veil_python_stack.Message.{Json}
use veil_python_stack.Pool.{Pool, release}
use veil_python_stack.Vpn.{Connection, Net, close, is_closed}
use veil_python_stack.Proxy.{
  ProxyServer, build_ready_payload, register_connection, remove_connection, close_removed,
}
use veil_python_stack.Proxy.TunConfig.{TunDevice}
use veil_python_stack.Proxy.Run.Tidy.{
  IsDown, WasClosed, DownIfSent, close-DownIfSent, close_tun-closed,
}
use veil_python_stack.Proxy.Serve.{
  Happening, refused, answered, left, Removal, keys_of, listed, remove_one, remove_each,
  shutdown_each, after_payload, registered, accept_loop, serve_forever,
}

-- The server holds neither a connection nor a lease of the session.
IsGone : ℕ → ProxyServer → Type 0
IsGone j p = (lookup j p.connections ≡ none) × (lookup j p.pool.leases_by_session ≡ none)

-- What `_remove_connection` leaves of a connection
abbrev pub WasRemoved : Net → Json → Connection → Type 0
WasRemoved net json = WasClosed net json "server_session_removed"

release-leases : (p : Pool) (s : ℕ) → (release p s).leases_by_session ≡ remove s p.leases_by_session
unfolding release
release-leases p s = elim (Option-cases (lookup s p.leases_by_session)) [
  | inl n ↦ rw n refl
  | inr (l, y) ↦ rw y refl
]

unfoldable is_in : ℕ → List ℕ → Bool
is_in j [] = false
is_in j (s ∷ ss) = s == j || is_in j ss

is_in-keys_of :
    (j : ℕ) (d : Dict ℕ Connection) (c : Connection)
    → lookup j d ≡ some c
    → is_in j (keys_of d) ≡ true
unfolding is_in lookup
is_in-keys_of j [] c h = ground (arith, h)
is_in-keys_of j ((s, x) ∷ d) c h = ground (arith, h, is_in-keys_of j d c)

module _ (net : Net) (json : Json) where
  remove_one-keeps_connections :
      (j s : ℕ) (r : Removal)
      → lookup j r.1.connections ≡ none
      → lookup j (remove_one net json s r).1.connections ≡ none
  unfolding remove_one remove_connection
  remove_one-keeps_connections j s r h = ground (arith, h, lookup-remove s j r.1.connections)

  remove_one-keeps : (j s : ℕ) (r : Removal) → IsGone j r.1 → IsGone j (remove_one net json s r).1
  unfolding remove_one remove_connection IsGone
  remove_one-keeps j s r h = (
    ground (arith, h.0, lookup-remove s j r.1.connections),
    rw (release-leases r.1.pool s)
        (ground (arith, h.1, lookup-remove s j r.1.pool.leases_by_session)),
  )

  remove_one-IsGone : (s : ℕ) (r : Removal) → IsGone s (remove_one net json s r).1
  unfolding remove_one remove_connection IsGone
  remove_one-IsGone s r = (
    ground (arith, lookup-remove s s r.1.connections, beq_refl s),
    rw (release-leases r.1.pool s)
        (ground (arith, lookup-remove s s r.1.pool.leases_by_session, beq_refl s)),
  )

  module _ (P : ProxyServer → Type 0)
      (keep : (s : ℕ) (r : Removal) → P r.1 → P (remove_one net json s r).1) where
    remove_each-keeps : (ss : List ℕ) (r : Removal) → P r.1 → P (remove_each net json ss r).1
    unfolding remove_each
    remove_each-keeps [] r h = h
    remove_each-keeps (s ∷ ss) r h = remove_each-keeps ss (remove_one net json s r) (keep s r h)

    shutdown_each-keeps :
        (others : ℕ → List ℕ) (ss : List ℕ) (r : Removal)
        → P r.1
        → P (shutdown_each net json others ss r).1
    unfolding shutdown_each
    shutdown_each-keeps others [] r h = h
    shutdown_each-keeps others (s ∷ ss) r h =
        shutdown_each-keeps others ss (remove_each net json (others s) (remove_one net json s r))
          (remove_each-keeps (others s) (remove_one net json s r) (keep s r h))

  shutdown_each-IsGone :
      (others : ℕ → List ℕ) (ss : List ℕ) (r : Removal) (j : ℕ)
      → is_in j ss ≡ true
      → IsGone j (shutdown_each net json others ss r).1
  unfolding shutdown_each is_in
  shutdown_each-IsGone others [] r j h = ground (arith, h)
  shutdown_each-IsGone others (s ∷ ss) r j h = elim (Bool-cases (s == j)) [
    | inl y ↦
        shutdown_each-keeps (IsGone j) (remove_one-keeps j) others ss
          (remove_each net json (others s) (remove_one net json s r))
          (remove_each-keeps (IsGone j) (remove_one-keeps j) (others s) (remove_one net json s r) (
            subst (λ k. IsGone k (remove_one net json s r).1) ((nat_eq.beq_iff s j).0 y)
              (remove_one-IsGone s r)))
    | inr n ↦
        shutdown_each-IsGone others ss (remove_each net json (others s) (remove_one net json s r)) j
          (ground (arith, h, n))
  ]

  -- A session without a connection stays without one, and the others lose theirs.
  shutdown_each-empty :
      (others : ℕ → List ℕ) (r : Removal) (j : ℕ)
      → lookup j (shutdown_each net json others (keys_of r.1.connections) r).1.connections ≡ none
  unfolding IsGone
  shutdown_each-empty others r j = elim (Option-cases (lookup j r.1.connections)) [
    | inl n ↦
        shutdown_each-keeps (λ p. lookup j p.connections ≡ none) (remove_one-keeps_connections j)
          others (keys_of r.1.connections) r n
    | inr (c, y) ↦
        (shutdown_each-IsGone others (keys_of r.1.connections) r j
          (is_in-keys_of j r.1.connections c y)).0
  ]

  closed-WasRemoved :
      (r : Result (Unit {0}) × Connection)
      → DownIfSent net json "server_session_removed" r
      → WasRemoved net json r.1
  unfolding DownIfSent
  closed-WasRemoved (ok u, c) h = inl h
  closed-WasRemoved (err e, c) h = inr h

  listed-WasRemoved :
      (o : Option Connection)
      → All (WasRemoved net json) (listed net json (close_removed net json o))
  unfolding IsDown
  listed-WasRemoved none = tt
  listed-WasRemoved (some c) =
      if-cases (λ o. All (WasRemoved net json) (listed net json o)) (is_closed c) (some c)
        (some ((close net json "server_session_removed" c).1)) (λ y. (inl (inl y), tt))
        (λ up. (
          closed-WasRemoved (close net json "server_session_removed" c)
              (close-DownIfSent net json "server_session_removed" c up),
          tt,
        ))

  -- All that was removed was closed.
  AllClosed : Removal → Type 0
  AllClosed r = All (WasRemoved net json) r.0

  remove_one-AllClosed : (s : ℕ) (r : Removal) → AllClosed r → AllClosed (remove_one net json s r)
  unfolding remove_one remove_connection AllClosed
  remove_one-AllClosed s r h =
      All-append (WasRemoved net json) r.0
        (listed net json (close_removed net json (lookup s r.1.connections))) h
        (listed-WasRemoved (lookup s r.1.connections))

  remove_each-AllClosed :
      (ss : List ℕ) (r : Removal) → AllClosed r → AllClosed (remove_each net json ss r)
  unfolding remove_each
  remove_each-AllClosed [] r h = h
  remove_each-AllClosed (s ∷ ss) r h =
      remove_each-AllClosed ss (remove_one net json s r) (remove_one-AllClosed s r h)

  shutdown_each-AllClosed :
      (others : ℕ → List ℕ) (ss : List ℕ) (r : Removal)
      → AllClosed r
      → AllClosed (shutdown_each net json others ss r)
  unfolding shutdown_each
  shutdown_each-AllClosed others [] r h = h
  shutdown_each-AllClosed others (s ∷ ss) r h =
      shutdown_each-AllClosed others ss (remove_each net json (others s) (remove_one net json s r))
        (remove_each-AllClosed (others s) (remove_one net json s r) (remove_one-AllClosed s r h))

  registered-AllClosed :
      (next : Removal → Option Error × Removal) (gone : List Connection)
      (x : Result Connection × ProxyServer)
      → ((r : Removal) → AllClosed r → AllClosed (next r).1)
      → All (WasRemoved net json) gone
      → AllClosed (registered net json next gone x).1
  unfolding AllClosed
  registered-AllClosed next gone (err e, p) keeps h = h
  registered-AllClosed next gone (ok c, p) keeps h = keeps (gone, register_connection c p) h

  accept_loop-AllClosed :
      (xs : List Happening) (r : Removal) → AllClosed r → AllClosed (accept_loop net json xs r).1
  unfolding accept_loop AllClosed
  accept_loop-AllClosed [] r h = h
  accept_loop-AllClosed (refused e ∷ xs) r h = h
  accept_loop-AllClosed (answered c result ∷ xs) (gone, p) h =
      registered-AllClosed (accept_loop net json xs) gone
        (after_payload net json result (build_ready_payload json c p))
        (λ r. accept_loop-AllClosed xs r) h
  accept_loop-AllClosed (left s ∷ xs) r h =
      accept_loop-AllClosed xs (remove_one net json s r) (remove_one-AllClosed s r h)

-- What `serve_forever` leaves, when its accept loop had left `before`
pub record IsShutDown (net : Net) (json : Json) (before : ProxyServer) (after : Removal)
    (tun : TunDevice) : Type 0 where
  pub no_connection : (j : ℕ) → lookup j after.1.connections ≡ none
  pub leases_released :
      (j : ℕ) (c : Connection)
      → lookup j before.connections ≡ some c
      → lookup j after.1.pool.leases_by_session ≡ none
  pub removed_closed : All (WasRemoved net json) after.0
  pub device_closed : tun.is_closed ≡ true

pub serve_forever-IsShutDown :
    (net : Net) (json : Json) (others : ℕ → List ℕ) (end : Error) (happenings : List Happening)
    (tun : TunDevice) (p : ProxyServer)
    → ((serve_forever net json others none end happenings tun p).0
        ≡ err (or_default (accept_loop net json happenings ([], p)).0 end))
      × IsShutDown net json
          (accept_loop net json happenings ([], p)).1.1
          (serve_forever net json others none end happenings tun p).1.0
          (serve_forever net json others none end happenings tun p).1.1
unfolding serve_forever IsGone AllClosed
serve_forever-IsShutDown net json others end happenings tun p =
    let served : Removal = (accept_loop net json happenings ([], p)).1 in
    let sessions = keys_of served.1.connections in
    (
      refl,
      record {
        no_connection = shutdown_each-empty net json others served;
        leases_released = λ j c h.
            (shutdown_each-IsGone net json others sessions served j
              (is_in-keys_of j served.1.connections c h)).1;
        removed_closed =
            shutdown_each-AllClosed net json others sessions served
              (accept_loop-AllClosed net json happenings ([], p) tt);
        device_closed = close_tun-closed tun;
      },
    )
