-- ===== src/Windows/Network/Quiet.antt =====
-- Parts of the network set-up that do not call the `route` program to add or delete a route.
use veil_python_stack.Prelude.{
  ℕ, zero, suc, ◌+◌, ◌≡◌, refl, ◌∙◌, String, Bool, true, false, Option, none, some, List, [], ◌∷◌,
  arith, string_eq, nat_eq, ◌==◌, if◌then◌else◌, ltb, if-Holds, if-cases,
}
use veil_python_stack.Prelude.Dict.{Dict}
use veil_python_stack.Prelude.Int.{ℤ}
use veil_python_stack.Errors.{Result, ok, err, runtime_error}
use veil_python_stack.Message.{Value}
use veil_python_stack.Windows.Network.{
  Call, query_proxy, disable_proxy, set_proxy, find_route, find_adapter, set_address, set_dns,
  reset_dns, set_mtu, route_add, route_delete, sleep, Windows, NetworkConfig, Act, after, ◌>>>◌,
  give, call, run_powershell, query_system_proxy_state, disable_system_proxy, restore_system_proxy,
  query_underlay_route, gave_up, before, look, poll_adapter, wait_for_adapter, set_servers,
  proxy_before,
}

-- Whether the last call of the `route` program with this destination is a `route add`, the newest call
-- standing first. What the PowerShell scripts do to the routes of the adapter is not looked at:
-- `set_address` removes the adapter's and puts the one of its address in place.
unfoldable pub is_given : String → List Call → Bool
is_given d [] = false
is_given d (route_add d' mask via index metric ∷ log) =
    let rest = is_given d log in if d' == d then true else rest
is_given d (route_delete d' mask ∷ log) =
    let rest = is_given d log in if d' == d then false else rest
is_given d (query_proxy ∷ log) = is_given d log
is_given d (disable_proxy ∷ log) = is_given d log
is_given d (set_proxy s o e ∷ log) = is_given d log
is_given d (find_route s ∷ log) = is_given d log
is_given d (find_adapter a ∷ log) = is_given d log
is_given d (set_address a i p m ∷ log) = is_given d log
is_given d (set_dns a ss ∷ log) = is_given d log
is_given d (reset_dns a ∷ log) = is_given d log
is_given d (set_mtu a m ∷ log) = is_given d log
is_given d (sleep n ∷ log) = is_given d log

-- It gives nothing to `route add` or `route delete`.
unfoldable pub IsQuiet {ℓ} : {A : Type ℓ} → Act A → Type 0
IsQuiet act = (log : List Call) (d : String) → is_given d (act log).1 ≡ is_given d log

module _ {A : Type 0} {B : Type 0} where
  after-IsQuiet :
      (log : List Call) (r : Result A × List Call) (rest : A → Act B) (d : String)
      → is_given d r.1 ≡ is_given d log
      → ((a : A) → IsQuiet (rest a))
      → is_given d (after r rest).1 ≡ is_given d log
  unfolding IsQuiet
  after-IsQuiet log (ok a, log') rest d h q = q a log' d ∙ h
  after-IsQuiet log (err e, log') rest d h q = h

  pub bind-IsQuiet :
      (act : Act A) (rest : A → Act B)
      → IsQuiet act
      → ((a : A) → IsQuiet (rest a))
      → IsQuiet (act >>> rest)
  unfolding IsQuiet
  bind-IsQuiet act rest h q log d = after-IsQuiet log (act log) rest d (h log d) q

module _ {A : Type 0} where
  pub give-IsQuiet : (r : Result A) → IsQuiet (give r)
  unfolding IsQuiet
  give-IsQuiet r log d = refl

  pub if-IsQuiet :
      (b : Bool) (act other : Act A)
      → IsQuiet act
      → IsQuiet other
      → IsQuiet (if b then act else other)
  if-IsQuiet b act other h g = if-Holds IsQuiet b act other h g

-- Whether a call is neither an addition nor a deletion
abbrev pub is_other : Call → Bool
is_other (route_add d mask via index metric) = false
is_other (route_delete d mask) = false
is_other _ = true

pub is_given-other :
    (c : Call) (log : List Call) (d : String)
    → is_other c ≡ true
    → is_given d (c ∷ log) ≡ is_given d log
unfolding is_given
is_given-other (route_add e mask via index metric) log d h = ground (arith, h)
is_given-other (route_delete e mask) log d h = ground (arith, h)
is_given-other query_proxy log d h = refl
is_given-other disable_proxy log d h = refl
is_given-other (set_proxy s o e) log d h = refl
is_given-other (find_route s) log d h = refl
is_given-other (find_adapter a) log d h = refl
is_given-other (set_address a i p m) log d h = refl
is_given-other (set_dns a ss) log d h = refl
is_given-other (reset_dns a) log d h = refl
is_given-other (set_mtu a m) log d h = refl
is_given-other (sleep n) log d h = refl

pub call-IsQuiet : (w : Windows) (c : Call) → is_other c ≡ true → IsQuiet (call w c)
unfolding IsQuiet call
call-IsQuiet w c h log d = is_given-other c log d h

pub run_powershell-IsQuiet :
    (w : Windows) (c : Call) → is_other c ≡ true → IsQuiet (run_powershell w c)
unfolding run_powershell
run_powershell-IsQuiet w c h =
    if-IsQuiet w.has_shell (call w c)
      (give (err (runtime_error "PowerShell is required on Windows"))) (call-IsQuiet w c h)
      (give-IsQuiet (err (runtime_error "PowerShell is required on Windows")))

pub ruleset quiet = (bind-IsQuiet, give-IsQuiet, if-IsQuiet, call-IsQuiet, run_powershell-IsQuiet)

disable-IsQuiet : (w : Windows) → IsQuiet (disable_system_proxy w)
unfolding disable_system_proxy query_system_proxy_state
disable-IsQuiet w = search quiet depth 12

pub proxy_before-IsQuiet : (w : Windows) (c : NetworkConfig) → IsQuiet (proxy_before w c)
proxy_before-IsQuiet w c = search (quiet, disable-IsQuiet)

pub query_underlay_route-IsQuiet :
    (w : Windows) (host : String) → IsQuiet (query_underlay_route w host)
unfolding query_underlay_route
query_underlay_route-IsQuiet w host = search quiet depth 24

pub restore-IsQuiet :
    (w : Windows) (state : Option (Dict String Value)) → IsQuiet (restore_system_proxy w state)
unfolding restore_system_proxy
restore-IsQuiet w none = search quiet
restore-IsQuiet w (some []) = search quiet
restore-IsQuiet w (some (e ∷ state)) = search quiet

pub set_servers-IsQuiet :
    (w : Windows) (alias : String) (ss : List String) → IsQuiet (set_servers w alias ss)
set_servers-IsQuiet w alias [] = search quiet
set_servers-IsQuiet w alias (s ∷ ss) = search quiet

before-IsQuiet :
    (w : Windows) (deadline : ℕ) (act : Act ℤ) → IsQuiet act → IsQuiet (before w deadline act)
unfolding IsQuiet
before-IsQuiet w deadline act h log d =
    if-cases (λ r. is_given d r.1 ≡ is_given d log) (ltb (w.clock log) deadline) (act log)
      (gave_up w log) (λ y. h log d) (λ n. refl)

look-IsQuiet :
    (w : Windows) (again : Act ℤ) (alias : String) → IsQuiet again → IsQuiet (look w again alias)
look-IsQuiet w again alias h = search quiet

poll_adapter-IsQuiet :
    (w : Windows) (rounds deadline : ℕ) (alias : String)
    → IsQuiet (poll_adapter w rounds deadline alias)
unfolding poll_adapter IsQuiet
poll_adapter-IsQuiet w zero deadline alias log d = refl
poll_adapter-IsQuiet w (suc rounds) deadline alias log d =
    before-IsQuiet w deadline (look w (poll_adapter w rounds deadline alias) alias)
      (look-IsQuiet w (poll_adapter w rounds deadline alias) alias
        (poll_adapter-IsQuiet w rounds deadline alias))
      log d

pub wait_for_adapter-IsQuiet : (w : Windows) (alias : String) → IsQuiet (wait_for_adapter w alias)
unfolding wait_for_adapter IsQuiet
wait_for_adapter-IsQuiet w alias log d = poll_adapter-IsQuiet w 27 (w.clock log + 8000) alias log d
