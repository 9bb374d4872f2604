-- ===== src/Windows/Network/Routes.antt =====
-- The destinations that the Windows client gives to `route add` are those that it gives to
-- `route delete`.
use veil_python_stack.Prelude.{
  ℕ, ◌≡◌, refl, ap, ◌∙◌, String, Bool, true, false, not, ◌&&◌, ◌||◌, Option, some, List, [], ◌∷◌,
  arith, string_eq, nat_eq, ◌==◌, if◌then◌else◌, if-Holds, Bool-cases, inl, inr, All,
}
use veil_python_stack.Prelude.Dict.{Dict}
use veil_python_stack.Prelude.Int.{ℤ}
use veil_python_stack.Errors.{Result, ok, err}
use veil_python_stack.Message.{Value}
use veil_python_stack.Windows.Network.{
  Call, set_address, reset_dns, set_mtu, Windows, NetworkConfig, Snapshot, NetworkState, Act, after,
  ◌>>>◌, give, call, run_powershell, when_done, restore_system_proxy, query_underlay_route, before,
  wait_for_adapter, call_all, route_commands, set_servers, state_of, proxy_before, mtu_calls,
  not_empty, set_up, configure_wintun_network, route_deletions, cleanup_wintun_network,
}
use veil_python_stack.Windows.Network.Quiet.{
  is_given, IsQuiet, quiet, is_other, is_given-other, give-IsQuiet, run_powershell-IsQuiet,
  proxy_before-IsQuiet, query_underlay_route-IsQuiet, restore-IsQuiet, set_servers-IsQuiet,
  wait_for_adapter-IsQuiet,
}

-- The destinations that belong to a network configuration
abbrev pub destinations : NetworkConfig → NetworkState → List String
destinations c st =
    st.underlay.server_ip ∷ (if c.full_tunnel then "0.0.0.0" ∷ "128.0.0.0" ∷ [] else [])

unfoldable pub is_one_of : String → List String → Bool
is_one_of d [] = false
is_one_of d (e ∷ es) = e == d || is_one_of d es

-- What is returned comes with a `route add` for each of its destinations, an exception with none.
unfoldable Adds : NetworkConfig → List Call → Result NetworkState × List Call → Type 0
Adds c log (ok st, log') =
    (d : String) → is_given d log' ≡ (is_one_of d (destinations c st) || is_given d log)
Adds c log (err e, log') = (d : String) → is_given d log' ≡ is_given d log

module _ (c : NetworkConfig) where
  Adds-from :
      (log log' : List Call) (r : Result NetworkState × List Call)
      → ((d : String) → is_given d log' ≡ is_given d log)
      → Adds c log' r
      → Adds c log r
  unfolding Adds
  Adds-from log log' (ok st, end) same h =
      λ d. h d ∙ ap (λ b. is_one_of d (destinations c st) || b) (same d)
  Adds-from log log' (err e, end) same h = λ d. h d ∙ same d

module _ {A : Type 0} (c : NetworkConfig) where
  after-Adds :
      (log : List Call) (r : Result A × List Call) (rest : A → Act NetworkState)
      → ((d : String) → is_given d r.1 ≡ is_given d log)
      → ((a : A) (from : List Call) → Adds c from (rest a from))
      → Adds c log (after r rest)
  unfolding Adds
  after-Adds log (ok a, log') rest same h = Adds-from c log log' (rest a log') same (h a log')
  after-Adds log (err e, log') rest same h = same

  bind-Adds :
      (act : Act A) (rest : A → Act NetworkState) (log : List Call)
      → IsQuiet act
      → ((a : A) (from : List Call) → Adds c from (rest a from))
      → Adds c log ((act >>> rest) log)
  unfolding IsQuiet
  bind-Adds act rest log quiet h = after-Adds log (act log) rest (λ d. quiet log d) h

call_all-IsQuiet :
    (w : Windows) (cs : List Call) → All (λ c. is_other c ≡ true) cs → IsQuiet (call_all w cs)
unfolding IsQuiet
call_all-IsQuiet w [] h log d = refl
call_all-IsQuiet w (c ∷ cs) (hc, h) log d =
    call_all-IsQuiet w cs h (c ∷ log) d ∙ is_given-other c log d hc

mtu-IsQuiet : (w : Windows) (c : NetworkConfig) → IsQuiet (call_all w (mtu_calls w c))
mtu-IsQuiet w c =
    if-Holds (λ cs. IsQuiet (call_all w cs)) w.netsh (set_mtu c.adapter_name c.packet_mtu ∷ []) []
      (call_all-IsQuiet w (set_mtu c.adapter_name c.packet_mtu ∷ []) (refl, tt))
      (call_all-IsQuiet w [] tt)

-- The last two steps: the routes are added and the state is returned.
add_routes-Adds :
    (w : Windows) (c : NetworkConfig) (underlay : Snapshot) (index : ℤ) (local : String × ℕ)
    (proxy : Dict String Value) (log : List Call)
    → Adds c log (
        (call_all w (route_commands w c underlay index) >>> λ u.
        give (ok (state_of w c underlay index local proxy)))
          log)
unfolding Adds is_given is_one_of
add_routes-Adds w c underlay index local proxy log = elim (Bool-cases c.full_tunnel) [
  | inl y ↦ rw y (λ d. ground arith)
  | inr n ↦ rw n (λ d. ground arith)
]

set_up-Adds :
    (w : Windows) (c : NetworkConfig) (underlay : Snapshot) (index : ℤ) (local : String × ℕ)
    (proxy : Dict String Value) (log : List Call)
    → Adds c log (set_up w c underlay index local proxy log)
set_up-Adds w c underlay index local proxy log =
    bind-Adds c (run_powershell w (set_address c.adapter_name local.0 local.1 c.packet_mtu)) _ log
      (run_powershell-IsQuiet w _ refl)
      (λ done from.
        bind-Adds c (when_done w "Failed to configure Wintun address" (tt {0}) done) _ from
          (search quiet)
          (λ u from.
            bind-Adds c (set_servers w c.adapter_name (not_empty w c.dns_servers)) _ from
              (set_servers-IsQuiet w c.adapter_name (not_empty w c.dns_servers))
              (λ u from.
                bind-Adds c (call_all w (mtu_calls w c)) _ from (mtu-IsQuiet w c)
                  (λ u from. add_routes-Adds w c underlay index local proxy from))))

configure-Adds :
    (w : Windows) (c : NetworkConfig) (log : List Call)
    → Adds c log (configure_wintun_network w c log)
unfolding configure_wintun_network Adds
configure-Adds w c log =
    if-Holds (λ (act : Act NetworkState). Adds c log (act log)) (not w.is_admin) _ _ (λ d. refl)
      (bind-Adds c (query_underlay_route w c.server_host) _ log
        (query_underlay_route-IsQuiet w c.server_host)
        (λ underlay from.
          bind-Adds c (wait_for_adapter w c.adapter_name) _ from
            (wait_for_adapter-IsQuiet w c.adapter_name)
            (λ index from.
              bind-Adds c (give c.tun_ipv4) _ from (give-IsQuiet c.tun_ipv4) (λ local from.
                bind-Adds c (proxy_before w c) _ from (proxy_before-IsQuiet w c)
                  (λ proxy from. set_up-Adds w c underlay index local proxy from)))))

delete_routes :
    (w : Windows) (c : NetworkConfig) (st : NetworkState) (log : List Call) (d : String)
    → is_given d (call_all w (route_deletions w c st) log).1
      ≡ (is_given d log && not (is_one_of d (destinations c st)))
unfolding is_given is_one_of
delete_routes w c st log d = elim (Bool-cases c.full_tunnel) [
  | inl y ↦ rw y (ground arith)
  | inr n ↦ rw n (ground arith)
]

after-call_all :
    (w : Windows) (cs : List Call) (rest : Act (Unit {0})) (log : List Call)
    → after (call_all w cs log) (λ u. rest) ≡ rest (call_all w cs log).1
after-call_all w [] rest log = refl
after-call_all w (c ∷ cs) rest log = after-call_all w cs rest (c ∷ log)

restore-quiet :
    (w : Windows) (state : Option (Dict String Value)) (log : List Call) (d : String)
    → is_given d (restore_system_proxy w state log).1 ≡ is_given d log
unfolding IsQuiet
restore-quiet w state log d = restore-IsQuiet w state log d

without :
    (own before after : Bool) → after ≡ (own || before) → (after && not own) ≡ (before && not own)
without own before after h = ground (arith, h)

cleanup-deletes :
    (w : Windows) (c : NetworkConfig) (st : NetworkState) (log : List Call) (d : String)
    → w.is_admin ≡ true
    → w.has_shell ≡ true
    → w.route ≡ true
    → is_given d (cleanup_wintun_network w c (some st) log).1
      ≡ (is_given d log && not (is_one_of d (destinations c st)))
unfolding cleanup_wintun_network run_powershell call is_given
cleanup-deletes w c st log d admin shell route =
    let deleted : List Call =
      (call_all w (route_deletions w c st) (reset_dns c.adapter_name ∷ log)).1 in
    rw
      (
        admin,
        shell,
        route,
        after-call_all w (route_deletions w c st) (restore_system_proxy w (some st.proxy_state))
            (reset_dns c.adapter_name ∷ log),
      )
      (restore-quiet w (some st.proxy_state) deleted d
        ∙ delete_routes w c st (reset_dns c.adapter_name ∷ log) d)

-- What a configuration leaves in the end: with `cleanup_wintun_network` of what it returned, or after
-- its exception
unfoldable pub TakenBack :
    Windows → NetworkConfig → List Call → Result NetworkState × List Call → Type 0
TakenBack w c log (ok st, log') =
    (d : String)
    → is_given d (cleanup_wintun_network w c (some st) log').1
      ≡ (is_given d log && not (is_one_of d (destinations c st)))
TakenBack w c log (err e, log') = (d : String) → is_given d log' ≡ is_given d log

Adds-TakenBack :
    (w : Windows) (c : NetworkConfig) (log : List Call) (r : Result NetworkState × List Call)
    → w.is_admin ≡ true
    → w.has_shell ≡ true
    → w.route ≡ true
    → Adds c log r
    → TakenBack w c log r
unfolding Adds TakenBack
Adds-TakenBack w c log (err e, log') admin shell route h = h
Adds-TakenBack w c log (ok st, log') admin shell route h = λ d.
    cleanup-deletes w c st log' d admin shell route
    ∙ without (is_one_of d (destinations c st)) (is_given d log) (is_given d log') (h d)

pub configure-TakenBack :
    (w : Windows) (c : NetworkConfig) (log : List Call)
    → w.is_admin ≡ true
    → w.has_shell ≡ true
    → w.route ≡ true
    → TakenBack w c log (configure_wintun_network w c log)
configure-TakenBack w c log admin shell route =
    Adds-TakenBack w c log (configure_wintun_network w c log) admin shell route
      (configure-Adds w c log)
