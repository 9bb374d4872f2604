-- ===== src/Windows/Network.antt =====
-- veil_core/windows_client_app.py: how the Windows client sets up the system's network for the tunnel
-- and takes this back. The machine answers to the calls so far; what it answers is a parameter.
pub mod Script
pub mod Quiet
pub mod Routes
use veil_python_stack.Prelude.{
  ℕ, zero, suc, ◌+◌, String, Bool, true, false, not, ◌&&◌, ◌||◌, Option, none, some, List, [], ◌∷◌,
  ltb, string_eq, nat_eq, ◌==◌, if◌then◌else◌, or_default,
}
use veil_python_stack.Prelude.Dict.{Dict, lookup}
use veil_python_stack.Prelude.Int.{ℤ}
use veil_python_stack.Errors.{Error, Result, ok, err, runtime_error, value_error, key_error}
use veil_python_stack.Message.{Value, boolean, text, Json, str_of, int_of, truthy, show_int}
use veil_python_stack.Text.{cat, strip}
use veil_python_stack.Linux.{Completed}

-- The programs that are called: PowerShell with one of its scripts, which Script.antt writes out,
-- `netsh`, `route`, and a sleep of some milliseconds
pub data Call : Type 0 where
  query_proxy disable_proxy : Call
  set_proxy : (server override enabled : String) → Call
  find_route : (server_ip : String) → Call
  find_adapter : (alias : String) → Call
  set_address : (alias ip : String) (prefix : ℕ) (mtu : ℤ) → Call
  set_dns : (alias : String) → List String → Call
  reset_dns : (alias : String) → Call
  set_mtu : (alias : String) (mtu : ℤ) → Call
  route_add : (destination mask via : String) (index : ℤ) (metric : String) → Call
  route_delete : (destination : String) (mask : Option String) → Call
  sleep : (milliseconds : ℕ) → Call

-- The machine. `loads` is `json.loads`, `resolve` is `resolve_ipv4`, `clock` is `time.time()` in
-- milliseconds.
pub record Windows : Type 0 where
  pub has_shell : Bool
  pub netsh : Bool
  pub route : Bool
  pub is_admin : Bool
  pub answer : List Call → Completed
  pub clock : List Call → ℕ
  pub loads : String → Option (Dict String Value)
  pub resolve : String → Result String
  pub json : Json

-- The fields of `WindowsClientConfig` that are used; `tun_ipv4` is the property of this name.
pub record NetworkConfig : Type 0 where
  pub server_host : String
  pub adapter_name : String
  pub tun_ipv4 : Result (String × ℕ)
  pub tun_peer : String
  pub packet_mtu : ℤ
  pub full_tunnel : Bool
  pub disable_system_proxy : Bool
  pub dns_servers : List String

-- `NetworkRouteSnapshot`
pub record Snapshot : Type 0 where
  pub interface_alias : String
  pub interface_index : ℤ
  pub next_hop : String
  pub server_ip : String

-- What `configure_wintun_network` returns
pub record NetworkState : Type 0 where
  pub underlay : Snapshot
  pub adapter_interface_index : ℤ
  pub adapter_name : String
  pub local_ip : String
  pub prefix_length : ℕ
  pub full_tunnel : Bool
  pub dns_servers : List String
  pub proxy_state : Dict String Value

-- What a function does, given the calls so far, the newest first
abbrev pub Act {ℓ} : Type ℓ → Type ℓ
Act A = List Call → Result A × List Call

abbrev pub after {ℓ κ} :
    {A : Type ℓ} {B : Type κ} → Result A × List Call → (A → Act B) → Result B × List Call
after (ok a, log) rest = rest a log
after (err e, log) rest = (err e, log)

infixl 4 ◌>>>◌
abbrev pub ◌>>>◌ {ℓ κ} : {A : Type ℓ} {B : Type κ} → Act A → (A → Act B) → Act B
(first >>> rest) log = after (first log) rest

abbrev pub give {ℓ} : {A : Type ℓ} → Result A → Act A
give r log = (r, log)

abbrev pub no_proxy : Dict String Value
no_proxy = ("enabled", boolean false) ∷ ("server", text "") ∷ ("override", text "") ∷ []

module _ (w : Windows) where
  -- `subprocess.run(..., check=False)`
  unfoldable pub call : Call → Act Completed
  call c log = (ok (w.answer (c ∷ log)), c ∷ log)

  -- `run_powershell`
  unfoldable pub run_powershell : Call → Act Completed
  unfolding call
  run_powershell c =
      if w.has_shell then call c else give (err (runtime_error "PowerShell is required on Windows"))

  abbrev pub proxy_of : Completed → Dict String Value
  proxy_of c =
      if not (c.returncode == 0) || strip c.stdout == ""
      then no_proxy
      else or_default (w.loads c.stdout) no_proxy

  -- `query_system_proxy_state`
  unfoldable pub query_system_proxy_state : Act (Dict String Value)
  unfolding run_powershell strip
  query_system_proxy_state = run_powershell query_proxy >>> λ c. give (ok (proxy_of c))

  abbrev pub is_enabled : Dict String Value → Bool
  is_enabled state = truthy (or_default (lookup "enabled" state) (boolean false))

  abbrev pub when_done {ℓ} : {A : Type ℓ} → String → A → Completed → Act A
  when_done message a c =
      if c.returncode == 0 then give (ok a) else give (err (runtime_error message))

  -- `disable_system_proxy`
  unfoldable pub disable_system_proxy : Act (Dict String Value)
  unfolding query_system_proxy_state run_powershell truthy lookup
  disable_system_proxy = query_system_proxy_state >>> λ state.
      if is_enabled state
      then (run_powershell disable_proxy >>> λ c.
          when_done "Failed to disable Windows proxy" state c)
      else give (ok state)

  abbrev pub entry_text : String → Dict String Value → String
  entry_text k state = str_of w.json (or_default (lookup k state) (text ""))

  -- `restore_system_proxy`; `none` and an empty state count as false.
  unfoldable pub restore_system_proxy : Option (Dict String Value) → Act (Unit {0})
  unfolding run_powershell truthy lookup str_of
  restore_system_proxy none = give (ok tt)
  restore_system_proxy (some []) = give (ok tt)
  restore_system_proxy (some (e ∷ state)) =
      run_powershell (
        set_proxy (entry_text "server" (e ∷ state)) (entry_text "override" (e ∷ state))
          (if is_enabled (e ∷ state) then "1" else "0"))
      >>> λ c. give (ok tt)

  abbrev need : String → Dict String Value → Result Value
  need k d = elim (lookup k d) [ none ↦ err (key_error k) | some v ↦ ok v ]

  abbrev loaded : Option (Dict String Value) → Result (Dict String Value)
  loaded none = err (value_error "JSONDecodeError")
  loaded (some d) = ok d

  -- `query_underlay_route`
  unfoldable pub query_underlay_route : String → Act Snapshot
  unfolding run_powershell lookup str_of int_of
  query_underlay_route server_host = give (w.resolve server_host) >>> λ server_ip.
      run_powershell (find_route server_ip) >>> λ c.
      when_done "Failed to discover underlay route" (tt {0}) c >>> λ u.
      give (loaded (w.loads c.stdout)) >>> λ payload.
      give (need "InterfaceAlias" payload) >>> λ alias.
      give (need "InterfaceIndex" payload) >>> λ index. give (int_of index) >>> λ interface_index.
      give (need "NextHop" payload) >>> λ next_hop. give (
        ok (record {
          interface_alias = str_of w.json alias;
          interface_index = interface_index;
          next_hop = str_of w.json next_hop;
          server_ip = server_ip;
        }))

  abbrev pub gave_up : Act ℤ
  gave_up = give (err (runtime_error "Wintun adapter did not appear in time"))

  abbrev pub before : ℕ → Act ℤ → Act ℤ
  before deadline act log = if ltb (w.clock log) deadline then act log else gave_up log

  -- A round of the loop of `wait_for_adapter`, with its next rounds
  abbrev pub look : Act ℤ → String → Act ℤ
  look again alias = run_powershell (find_adapter alias) >>> λ c.
      if c.returncode == 0 && not (strip c.stdout == "")
      then give (int_of (text (strip c.stdout)))
      else (call (sleep 300) >>> λ s. again)

  -- The loop of `wait_for_adapter`, for at most so many rounds
  unfoldable pub poll_adapter : (rounds deadline : ℕ) (alias : String) → Act ℤ
  unfolding run_powershell strip int_of
  poll_adapter zero deadline alias log = gave_up log
  poll_adapter (suc rounds) deadline alias log =
      before deadline (look (poll_adapter rounds deadline alias) alias) log

  -- `wait_for_adapter`: a round sleeps for 300 milliseconds, so there is room for 27 in 8 seconds.
  unfoldable pub wait_for_adapter : String → Act ℤ
  unfolding poll_adapter
  wait_for_adapter alias log = poll_adapter 27 (w.clock log + 8000) alias log

  -- The calls whose answers are ignored
  abbrev pub call_all : List Call → Act (Unit {0})
  call_all [] log = (ok tt, log)
  call_all (c ∷ cs) log = call_all cs (c ∷ log)

  abbrev pub not_empty : List String → List String
  not_empty [] = []
  not_empty (s ∷ ss) = let rest = not_empty ss in if s == "" then rest else s ∷ rest

  abbrev pub route_commands : NetworkConfig → Snapshot → ℤ → List Call
  route_commands c underlay index =
      route_add underlay.server_ip "255.255.255.255" underlay.next_hop underlay.interface_index "1"
      ∷ (if c.full_tunnel
          then route_add "0.0.0.0" "128.0.0.0" c.tun_peer index "5"
            ∷ route_add "128.0.0.0" "128.0.0.0" c.tun_peer index "5"
            ∷ []
          else [])

  abbrev pub set_servers : String → List String → Act (Unit {0})
  set_servers alias [] = give (ok tt)
  set_servers alias (s ∷ ss) = run_powershell (set_dns alias (s ∷ ss)) >>> λ c.
      when_done "Failed to configure DNS servers" (tt {0}) c

  abbrev pub state_of : NetworkConfig → Snapshot → ℤ → String × ℕ → Dict String Value → NetworkState
  state_of c underlay index (ip, prefix) proxy = record {
    underlay = underlay;
    adapter_interface_index = index;
    adapter_name = c.adapter_name;
    local_ip = ip;
    prefix_length = prefix;
    full_tunnel = c.full_tunnel;
    dns_servers = not_empty c.dns_servers;
    proxy_state = proxy;
  }

  abbrev pub proxy_before : NetworkConfig → Act (Dict String Value)
  proxy_before c = if c.disable_system_proxy then disable_system_proxy else give (ok no_proxy)

  abbrev pub mtu_calls : NetworkConfig → List Call
  mtu_calls c = if w.netsh then set_mtu c.adapter_name c.packet_mtu ∷ [] else []

  -- What follows once the route and the adapter are known
  abbrev pub set_up :
      NetworkConfig → Snapshot → ℤ → String × ℕ → Dict String Value → Act NetworkState
  set_up c underlay index local proxy =
      run_powershell (set_address c.adapter_name local.0 local.1 c.packet_mtu) >>> λ done.
      when_done "Failed to configure Wintun address" (tt {0}) done >>> λ u.
      set_servers c.adapter_name (not_empty c.dns_servers) >>> λ u. call_all (mtu_calls c) >>> λ u.
      call_all (route_commands c underlay index) >>> λ u.
      give (ok (state_of c underlay index local proxy))

  -- `configure_wintun_network`
  unfoldable pub configure_wintun_network : NetworkConfig → Act NetworkState
  unfolding run_powershell query_underlay_route wait_for_adapter disable_system_proxy
  configure_wintun_network c =
      if not w.is_admin
      then give (err (runtime_error "Administrator rights are required"))
      else (query_underlay_route c.server_host >>> λ underlay.
          wait_for_adapter c.adapter_name >>> λ index. give c.tun_ipv4 >>> λ local.
          proxy_before c >>> λ proxy. set_up c underlay index local proxy)

  abbrev pub route_deletions : NetworkConfig → NetworkState → List Call
  route_deletions c state =
      route_delete state.underlay.server_ip none
      ∷ (if c.full_tunnel
          then route_delete "0.0.0.0" (some "128.0.0.0")
            ∷ route_delete "128.0.0.0" (some "128.0.0.0")
            ∷ []
          else [])

  abbrev pub deletions : NetworkConfig → Option NetworkState → List Call
  deletions c none = []
  deletions c (some state) = if w.route then route_deletions c state else []

  abbrev pub proxy_in : Option NetworkState → Option (Dict String Value)
  proxy_in none = none
  proxy_in (some state) = some state.proxy_state

  -- `cleanup_wintun_network`
  unfoldable pub cleanup_wintun_network : NetworkConfig → Option NetworkState → Act (Unit {0})
  unfolding run_powershell restore_system_proxy
  cleanup_wintun_network c state =
      if not w.is_admin
      then give (ok tt)
      else (run_powershell (reset_dns c.adapter_name) >>> λ done.
          call_all (deletions c state) >>> λ u. restore_system_proxy (proxy_in state))
