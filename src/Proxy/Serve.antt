-- ===== src/Proxy/Serve.antt =====
-- veil_core/linux_proxy.py, `LinuxVpnProxyServer`: the accept loop, `serve_forever` and the shutdown.
-- While the server removes a connection, tasks of other connections may end and remove theirs.
pub mod Shutdown
use veil_python_stack.Prelude.{
  ℕ, take, String, Bool, true, false, Option, none, some, List, [], ◌∷◌, ◌++◌, nat_eq, string_eq,
  ◌==◌, or_default, if◌then◌else◌,
}
use veil_python_stack.Prelude.Dict.{Dict}
use veil_python_stack.Errors.{Error, Result, ok, err, cancelled_error}
use veil_python_stack.Message.{Value, Json}
use veil_python_stack.Vpn.{Connection, Net}
use veil_python_stack.Proxy.{
  ProxyServer, build_ready_payload, register_connection, remove_connection,
}
use veil_python_stack.Proxy.TunConfig.{TunDevice}
use veil_python_stack.Proxy.TunConfig.{close as close_tun}

-- What happens while the server runs: a call of `server.accept` ends before it asks for the ready
-- payload, or after it asked for the payload of a connection, or the task of a session ends and
-- removes its connection.
pub data Happening : Type 0 where
  refused : Error → Happening
  answered : Connection → Result Connection → Happening
  left : ℕ → Happening

abbrev pub keys_of {ℓ} : {A : Type ℓ} → Dict ℕ A → List ℕ
keys_of [] = []
keys_of ((s, a) ∷ d) = s ∷ keys_of d

-- The connections that were removed, each after its `close`, and the server
abbrev pub Removal : Type 0
Removal = List Connection × ProxyServer

module _ (net : Net) (json : Json) where
  abbrev pub listed : Option Connection → List Connection
  listed none = []
  listed (some c) = c ∷ []

  -- `_remove_connection`, with what was removed before
  unfoldable pub remove_one : ℕ → Removal → Removal
  unfolding remove_connection
  remove_one s (gone, p) =
      (gone ++ listed (remove_connection net json s p).0, (remove_connection net json s p).1)

  unfoldable pub remove_each : List ℕ → Removal → Removal
  unfolding remove_one
  remove_each [] r = r
  remove_each (s ∷ ss) r = remove_each ss (remove_one s r)

  -- `_shutdown_connections`: `others s` are the sessions whose tasks end while `s` is
  -- removed.
  unfoldable pub shutdown_each : (others : ℕ → List ℕ) → List ℕ → Removal → Removal
  unfolding remove_one remove_each
  shutdown_each others [] r = r
  shutdown_each others (s ∷ ss) r =
      shutdown_each others ss (remove_each (others s) (remove_one s r))

  abbrev pub after_payload :
      Result Connection → Result (Dict String Value) × ProxyServer → Result Connection × ProxyServer
  after_payload r (err e, p) = (err e, p)
  after_payload r (ok payload, p) = (r, p)

  abbrev pub registered :
      (Removal → Option Error × Removal)
      → List Connection
      → Result Connection × ProxyServer
      → Option Error × Removal
  registered next gone (err e, p) = (some e, (gone, p))
  registered next gone (ok c, p) = next (gone, register_connection c p)

  -- `_accept_loop`, with the tasks that end meanwhile: the exception that ends it, if one does.
  -- `server.accept` calls `_build_ready_payload` before it answers.
  unfoldable pub accept_loop : List Happening → Removal → Option Error × Removal
  unfolding build_ready_payload register_connection remove_one
  accept_loop [] r = (none, r)
  accept_loop (refused e ∷ xs) r = (some e, r)
  accept_loop (answered c result ∷ xs) (gone, p) =
      registered (accept_loop xs) gone (after_payload result (build_ready_payload json c p))
  accept_loop (left s ∷ xs) r = accept_loop xs (remove_one s r)

  -- The `finally` block: a CancelledError that one of its waits raises, after this many removals,
  -- skips the rest of it.
  abbrev pub finish_serving :
      (others : ℕ → List ℕ) (interrupted : Option ℕ) (end : Error)
      → TunDevice
      → Option Error × Removal
      → Result (Unit {0}) × (Removal × TunDevice)
  finish_serving others none end tun (failure, (gone, p)) = (
    err (or_default failure end),
    (shutdown_each others (keys_of p.connections) (gone, p), close_tun tun),
  )
  finish_serving others (some n) end tun (failure, (gone, p)) =
      (err cancelled_error, (shutdown_each others (take n (keys_of p.connections)) (gone, p), tun))

  -- `serve_forever` from the first accept on: the accept loop fails, or else `end` is the exception of
  -- the TUN reader or of a cancellation. That both fail in one step is left out.
  unfoldable pub serve_forever :
      (others : ℕ → List ℕ) (interrupted : Option ℕ) (end : Error)
      → List Happening
      → TunDevice
      → ProxyServer
      → Result (Unit {0}) × (Removal × TunDevice)
  unfolding accept_loop shutdown_each close_tun
  serve_forever others interrupted end happenings tun p =
      finish_serving others interrupted end tun (accept_loop happenings ([], p))
