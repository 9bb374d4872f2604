-- ===== src/Examples/Applications.antt =====
-- Machines on which the client is started and stopped.
use veil_python_stack.Prelude.{
  ℕ, ◌+◌, ◌≡◌, refl, String, Bool, true, false, none, some, List, [], ◌∷◌, string_eq, ◌==◌,
  if◌then◌else◌,
}
use veil_python_stack.Prelude.Dict.{lookup}
use veil_python_stack.Errors.{ok, err, process_lookup_error, called_process_error, runtime_error}
use veil_python_stack.Message.{null, text, boolean, Json, truthy, str_of}
use veil_python_stack.Text.{strip, words, show, show_from}
use veil_python_stack.Dataclass.{Class, Instance, attribute}
use veil_python_stack.Config.{has, either, str_attribute}
use veil_python_stack.Config.Client.{linux_client_config}
use veil_python_stack.Config.Server.{word_after}
use veil_python_stack.Linux.{
  World, Completed, Conflict, Command, run, spawn, signal, sleep, Machine, run_command, run_ip,
  kill,
}
use veil_python_stack.Linux.Services.{
  service_is_active, service_is_enabled, stop_service, start_service, interface_exists,
  delete_interface, set_nm_managed, detect_conflicting_services, suspend_conflicting_services,
  restore_conflicting_services, clash,
}
use veil_python_stack.Linux.Routes.{
  route_of, route_info_for_host, poll_route, resolve_underlay_route, is_one_of,
}
use veil_python_stack.Linux.Stop.{stop_runtime, Stopped, await_exit}
use veil_python_stack.Linux.Start.{
  start_runtime, Started, check_start, suspend_if, launch, bring_up, client_command, poll_tun,
  wait_for_tun,
}
use veil_python_stack.Linux.Quiet.{left_stopped}
use veil_python_stack.Linux.Start.{poll_tun, tun_rounds, wait_for_tun}
use veil_python_stack.Linux.Waiting.{wait_for_tun_enough}
use veil_python_stack.Prelude.{◌≤◌, arith}
use veil_python_stack.Linux.Recovery.{
  stop_runtime-start_runtime, start_runtime-bring_up_failed, start_runtime-launch_failed,
}

abbrev defaults : Class → Instance
defaults [] = []
defaults ((k, none) ∷ cls) = (k, null) ∷ defaults cls
defaults ((k, some v) ∷ cls) = (k, v) ∷ defaults cls

abbrev config : Instance
config =
    ("server_host", text "203.0.113.5")
    ∷ ("suspend_conflicting_services", boolean true)
    ∷ defaults linux_client_config

abbrev no_json : Json
no_json = record { encode = λ v. []; decode = λ b. err (runtime_error "no text"); repr = λ v. "" }

abbrev fine : String → Completed
fine s = record { returncode = 0; stdout = s }

abbrev failed : Completed
failed = record { returncode = 1; stdout = "" }

-- What programs print: the other client is active, and its interface is not there. The route to
-- the server and the tunnel's interface are there or not.
abbrev answers : (routed tunneled : Bool) → List String → Completed
answers routed tunneled [] = failed
answers routed tunneled (p ∷ []) = failed
answers routed tunneled (p ∷ v ∷ []) = failed
answers routed tunneled (p ∷ v ∷ t ∷ []) = fine "active\n"
answers routed tunneled (p ∷ v ∷ t ∷ u ∷ []) = failed
answers routed tunneled (p ∷ v ∷ t ∷ u ∷ x ∷ []) =
    if u == "get"
    then (if routed then fine "203.0.113.5 via 10.0.0.1 dev eth0 src 10.0.0.2 uid 0" else failed)
    else if x == "Mihomo"
    then failed
    else if tunneled
    then fine ""
    else failed
answers routed tunneled (p ∷ v ∷ t ∷ u ∷ x ∷ y ∷ args) = fine ""

abbrev newest : (routed tunneled : Bool) → List Command → Completed
newest routed tunneled [] = failed
newest routed tunneled (run args ∷ history) = answers routed tunneled args
newest routed tunneled (spawn args ∷ history) = failed
newest routed tunneled (signal s pid ∷ history) = failed
newest routed tunneled (sleep n ∷ history) = failed

abbrev slept : List Command → ℕ
slept [] = 0
slept (run args ∷ history) = slept history
slept (spawn args ∷ history) = slept history
slept (signal s pid ∷ history) = slept history
slept (sleep n ∷ history) = slept history + n

abbrev world : (routed tunneled : Bool) → World
world routed tunneled = record {
  completed = newest routed tunneled;
  spawned = λ h. ok 4242;
  signalled = λ h. err process_lookup_error;
  clock = slept;
  systemctl = true;
  nmcli = some "/usr/bin/nmcli";
  python = "/usr/bin/python3";
  repo_root = "/opt/veil";
  json = no_json;
}

abbrev idle : Machine
idle = record { history = []; pid_file = none; state_file = none }

abbrev other_client : Conflict
other_client = record {
  service = clash;
  interface = "Mihomo";
  was_active = true;
  was_enabled = false;
  interface_present = false;
}

abbrev up : World
up = world true true

abbrev started : Started
started = record { pid = 4242; tun_name = "veilfull0"; suspended_conflicts = other_client ∷ [] }

start_up : start_runtime up config idle ≡ (ok started, (start_runtime up config idle).1)
unfolding start_runtime check_start suspend_conflicting_services detect_conflicting_services
    service_is_active service_is_enabled interface_exists stop_service delete_interface launch
    resolve_underlay_route poll_route route_info_for_host route_of word_after words strip is_one_of
    bring_up wait_for_tun poll_tun set_nm_managed run_command run_ip kill client_command has either
    attribute lookup truthy str_attribute str_of show show_from
start_up = refl

abbrev stopped : Bool → List Conflict → Stopped
stopped had_state restored = record {
  tun_name = "veilfull0";
  had_state = had_state;
  restored_conflicts = restored;
}

-- The machine after the start
abbrev running : Machine
running = (start_runtime up config idle).1

stop_up :
    stop_runtime up config running
    ≡ (ok (stopped true (other_client ∷ [])), (stop_runtime up config running).1)
unfolding stop_runtime await_exit restore_conflicting_services start_service start_runtime
    check_start suspend_conflicting_services detect_conflicting_services service_is_active
    service_is_enabled interface_exists stop_service delete_interface launch resolve_underlay_route
    poll_route route_info_for_host route_of word_after words strip is_one_of bring_up wait_for_tun
    poll_tun set_nm_managed run_command run_ip kill client_command has either attribute lookup
    truthy str_attribute str_of show show_from
stop_up = refl

idle-left_stopped : left_stopped clash [] ≡ false
unfolding left_stopped
idle-left_stopped = refl

stop_runtime-start_runtime_example :
    (left_stopped clash (stop_runtime up config running).1.history ≡ false)
    × ((stop_runtime up config running).1.pid_file ≡ none)
    × ((stop_runtime up config running).1.state_file ≡ none)
    × (other_client ∷ [] ≡ other_client ∷ [])
stop_runtime-start_runtime_example =
    stop_runtime-start_runtime up clash config idle running (stop_runtime up config running).1
      started (stopped true (other_client ∷ [])) idle-left_stopped start_up stop_up

-- The tunnel's interface does not appear.
abbrev down : World
down = world true false

abbrev unrouted : World
unrouted = world false false

abbrev after_check : World → Machine
after_check w = (check_start w config idle).1

abbrev after_suspension : World → Machine
after_suspension w = (suspend_if w (has "suspend_conflicting_services" config) (after_check w)).1

abbrev after_launch : World → Machine
after_launch w = (launch w config (other_client ∷ []) (other_client ∷ []) (after_suspension w)).1

down-check :
    check_start down config idle ≡ (ok (other_client ∷ []), (check_start down config idle).1)
unfolding stop_runtime await_exit restore_conflicting_services start_service start_runtime
    check_start suspend_conflicting_services detect_conflicting_services service_is_active
    service_is_enabled interface_exists stop_service delete_interface launch resolve_underlay_route
    poll_route route_info_for_host route_of word_after words strip is_one_of bring_up wait_for_tun
    poll_tun set_nm_managed run_command run_ip kill client_command has either attribute lookup
    truthy str_attribute str_of show show_from
down-check = refl

down-suspension : suspend_if down (has "suspend_conflicting_services" config) (after_check down) ≡ (
  ok (other_client ∷ []),
  (suspend_if down (has "suspend_conflicting_services" config) (after_check down)).1,
)
unfolding stop_runtime await_exit restore_conflicting_services start_service start_runtime
    check_start suspend_conflicting_services detect_conflicting_services service_is_active
    service_is_enabled interface_exists stop_service delete_interface launch resolve_underlay_route
    poll_route route_info_for_host route_of word_after words strip is_one_of bring_up wait_for_tun
    poll_tun set_nm_managed run_command run_ip kill client_command has either attribute lookup
    truthy str_attribute str_of show show_from
down-suspension = refl

down-launch : launch down config (other_client ∷ []) (other_client ∷ []) (after_suspension down) ≡ (
  ok 4242,
  (launch down config (other_client ∷ []) (other_client ∷ []) (after_suspension down)).1,
)
unfolding stop_runtime await_exit restore_conflicting_services start_service start_runtime
    check_start suspend_conflicting_services detect_conflicting_services service_is_active
    service_is_enabled interface_exists stop_service delete_interface launch resolve_underlay_route
    poll_route route_info_for_host route_of word_after words strip is_one_of bring_up wait_for_tun
    poll_tun set_nm_managed run_command run_ip kill client_command has either attribute lookup
    truthy str_attribute str_of show show_from
down-launch = refl

abbrev no_tun_machine : Machine
no_tun_machine = (bring_up down config (after_launch down)).1

down-bring_up :
    bring_up down config (after_launch down)
    ≡ (err (runtime_error "TUN did not appear in time"), no_tun_machine)
unfolding stop_runtime await_exit restore_conflicting_services start_service start_runtime
    check_start suspend_conflicting_services detect_conflicting_services service_is_active
    service_is_enabled interface_exists stop_service delete_interface launch resolve_underlay_route
    poll_route route_info_for_host route_of word_after words strip is_one_of bring_up wait_for_tun
    poll_tun set_nm_managed run_command run_ip kill client_command has either attribute lookup
    truthy str_attribute str_of show show_from
down-bring_up = refl

down-stop :
    stop_runtime down config no_tun_machine
    ≡ (ok (stopped true (other_client ∷ [])), (stop_runtime down config no_tun_machine).1)
unfolding stop_runtime await_exit restore_conflicting_services start_service start_runtime
    check_start suspend_conflicting_services detect_conflicting_services service_is_active
    service_is_enabled interface_exists stop_service delete_interface launch resolve_underlay_route
    poll_route route_info_for_host route_of word_after words strip is_one_of bring_up wait_for_tun
    poll_tun set_nm_managed run_command run_ip kill client_command has either attribute lookup
    truthy str_attribute str_of show show_from
down-stop = refl

start_runtime-bring_up_failed_example :
    (start_runtime down config idle ≡ (
      err (runtime_error "TUN did not appear in time"),
      (stop_runtime down config no_tun_machine).1,
    ))
    × (left_stopped clash (stop_runtime down config no_tun_machine).1.history ≡ false)
    × ((stop_runtime down config no_tun_machine).1.pid_file ≡ none)
    × ((stop_runtime down config no_tun_machine).1.state_file ≡ none)
start_runtime-bring_up_failed_example =
    start_runtime-bring_up_failed down clash config idle (after_check down) (after_suspension down)
      (after_launch down) no_tun_machine (stop_runtime down config no_tun_machine).1
      (other_client ∷ []) (other_client ∷ []) 4242 (runtime_error "TUN did not appear in time")
      (stopped true (other_client ∷ [])) idle-left_stopped down-check down-suspension down-launch
      down-bring_up down-stop

unrouted-check :
    check_start unrouted config idle
    ≡ (ok (other_client ∷ []), (check_start unrouted config idle).1)
unfolding stop_runtime await_exit restore_conflicting_services start_service start_runtime
    check_start suspend_conflicting_services detect_conflicting_services service_is_active
    service_is_enabled interface_exists stop_service delete_interface launch resolve_underlay_route
    poll_route route_info_for_host route_of word_after words strip is_one_of bring_up wait_for_tun
    poll_tun set_nm_managed run_command run_ip kill client_command has either attribute lookup
    truthy str_attribute str_of show show_from
unrouted-check = refl

unrouted-suspension :
    suspend_if unrouted (has "suspend_conflicting_services" config) (after_check unrouted) ≡ (
      ok (other_client ∷ []),
      (suspend_if unrouted (has "suspend_conflicting_services" config) (after_check unrouted)).1,
    )
unfolding stop_runtime await_exit restore_conflicting_services start_service start_runtime
    check_start suspend_conflicting_services detect_conflicting_services service_is_active
    service_is_enabled interface_exists stop_service delete_interface launch resolve_underlay_route
    poll_route route_info_for_host route_of word_after words strip is_one_of bring_up wait_for_tun
    poll_tun set_nm_managed run_command run_ip kill client_command has either attribute lookup
    truthy str_attribute str_of show show_from
unrouted-suspension = refl

abbrev unrouted_machine : Machine
unrouted_machine =
    (launch unrouted config (other_client ∷ []) (other_client ∷ []) (after_suspension unrouted)).1

unrouted-launch :
    launch unrouted config (other_client ∷ []) (other_client ∷ []) (after_suspension unrouted)
    ≡ (err called_process_error, unrouted_machine)
unfolding stop_runtime await_exit restore_conflicting_services start_service start_runtime
    check_start suspend_conflicting_services detect_conflicting_services service_is_active
    service_is_enabled interface_exists stop_service delete_interface launch resolve_underlay_route
    poll_route route_info_for_host route_of word_after words strip is_one_of bring_up wait_for_tun
    poll_tun set_nm_managed run_command run_ip kill client_command has either attribute lookup
    truthy str_attribute str_of show show_from
unrouted-launch = refl

unrouted-stop :
    stop_runtime unrouted config unrouted_machine
    ≡ (ok (stopped false []), (stop_runtime unrouted config unrouted_machine).1)
unfolding stop_runtime await_exit restore_conflicting_services start_service start_runtime
    check_start suspend_conflicting_services detect_conflicting_services service_is_active
    service_is_enabled interface_exists stop_service delete_interface launch resolve_underlay_route
    poll_route route_info_for_host route_of word_after words strip is_one_of bring_up wait_for_tun
    poll_tun set_nm_managed run_command run_ip kill client_command has either attribute lookup
    truthy str_attribute str_of show show_from
unrouted-stop = refl

-- The other client is left stopped.
unrouted-left_stopped : left_stopped clash (after_suspension unrouted).history ≡ true
unfolding left_stopped stop_runtime await_exit restore_conflicting_services start_service
    start_runtime check_start suspend_conflicting_services detect_conflicting_services
    service_is_active service_is_enabled interface_exists stop_service delete_interface launch
    resolve_underlay_route poll_route route_info_for_host route_of word_after words strip is_one_of
    bring_up wait_for_tun poll_tun set_nm_managed run_command run_ip kill client_command has either
    attribute lookup truthy str_attribute str_of show show_from
unrouted-left_stopped = refl

start_runtime-launch_failed_example :
    (start_runtime unrouted config idle ≡ (err called_process_error, unrouted_machine))
    × (unrouted_machine.state_file ≡ none)
    × (left_stopped clash (stop_runtime unrouted config unrouted_machine).1.history
        ≡ left_stopped clash (after_suspension unrouted).history)
start_runtime-launch_failed_example =
    start_runtime-launch_failed unrouted clash config idle (after_check unrouted)
      (after_suspension unrouted) unrouted_machine (stop_runtime unrouted config unrouted_machine).1
      (other_client ∷ []) (other_client ∷ []) called_process_error (stopped false []) refl
      unrouted-check unrouted-suspension unrouted-launch unrouted-stop

slept_steady : (c : Command) (h : List Command) → slept h ≤ slept (c ∷ h)
slept_steady (run args) h = omega arith
slept_steady (spawn args) h = omega arith
slept_steady (signal s pid) h = omega arith
slept_steady (sleep n) h = omega arith

wait_for_tun_enough_example :
    poll_tun down "veilfull0" (slept [] + 30000) (5 + tun_rounds) idle
    ≡ wait_for_tun down "veilfull0" idle
wait_for_tun_enough_example =
    wait_for_tun_enough down slept_steady (λ n h. omega arith) "veilfull0" 5 idle
