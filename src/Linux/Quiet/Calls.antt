-- ===== src/Linux/Quiet/Calls.antt =====
-- The quiet functions of the client's runtime.
use veil_python_stack.Prelude.{
  ℕ, zero, suc, ◌+◌, refl, String, Bool, true, false, Option, none, some, List, [], ◌∷◌, string_eq,
  nat_eq,
}
use veil_python_stack.Prelude.Dict.{Dict}
use veil_python_stack.Errors.{Result, ok, err}
use veil_python_stack.Dataclass.{Instance}
use veil_python_stack.Linux.{World, Act, run_command}
use veil_python_stack.Linux.Services.{
  service_is_active, service_is_enabled, interface_exists, delete_interface, set_with,
  set_nm_managed, is_there, detect_conflicting_services,
}
use veil_python_stack.Linux.Routes.{
  route_info_for_host, poll_route, resolve_underlay_route, route_rounds,
}
use veil_python_stack.Linux.Stop.{
  on_probe, until_exit, await_exit, exit_rounds, terminate_process, delete_routes,
}
use veil_python_stack.Linux.Start.{poll_tun, wait_for_tun, tun_rounds, bring_up, pin_route, popen}
use veil_python_stack.Linux.Quiet.{IsQuiet, quiet, run_command-IsQuiet, left_stopped}

pub interface_exists-IsQuiet :
    (s : String) (w : World) (name : String) → IsQuiet s (interface_exists w name)
unfolding interface_exists
interface_exists-IsQuiet s w name = search quiet

pub delete_interface-IsQuiet :
    (s : String) (w : World) (name : String) → IsQuiet s (delete_interface w name)
unfolding delete_interface
delete_interface-IsQuiet s w name = search quiet

service_is_active-IsQuiet :
    (s : String) (w : World) (name : String) → IsQuiet s (service_is_active w name)
unfolding service_is_active
service_is_active-IsQuiet s w name = search (quiet, run_command-IsQuiet)

service_is_enabled-IsQuiet :
    (s : String) (w : World) (name : String) → IsQuiet s (service_is_enabled w name)
unfolding service_is_enabled
service_is_enabled-IsQuiet s w name = search (quiet, run_command-IsQuiet)

is_there-IsQuiet : (s : String) (w : World) (b : Bool) → IsQuiet s (is_there w b)
is_there-IsQuiet s w true = search quiet
is_there-IsQuiet s w false = interface_exists-IsQuiet s w "Mihomo"

pub detect_conflicting_services-IsQuiet :
    (s : String) (w : World) → IsQuiet s (detect_conflicting_services w)
unfolding detect_conflicting_services
detect_conflicting_services-IsQuiet s w =
    search
      (
        quiet, service_is_active-IsQuiet, service_is_enabled-IsQuiet, interface_exists-IsQuiet,
        is_there-IsQuiet,
      )
      depth 12

device-IsQuiet :
    (s : String) (w : World) (nmcli name answer : String)
    → IsQuiet s (run_command w false (nmcli ∷ "device" ∷ "set" ∷ name ∷ "managed" ∷ answer ∷ []))
device-IsQuiet s w nmcli name answer = search run_command-IsQuiet

set_with-IsQuiet :
    (s : String) (w : World) (name : String) (b : Bool) (o : Option String)
    → IsQuiet s (set_with w name b o)
set_with-IsQuiet s w name b none = search quiet
set_with-IsQuiet s w name b (some nmcli) = search (quiet, interface_exists-IsQuiet, device-IsQuiet)

set_nm_managed-IsQuiet :
    (s : String) (w : World) (name : String) (b : Bool) → IsQuiet s (set_nm_managed w name b)
unfolding set_nm_managed
set_nm_managed-IsQuiet s w name b = set_with-IsQuiet s w name b w.nmcli

route_info-IsQuiet :
    (s : String) (w : World) (host : String) → IsQuiet s (route_info_for_host w host)
unfolding route_info_for_host
route_info-IsQuiet s w host = search quiet

poll_route-IsQuiet :
    (s : String) (w : World) (host : String) (excluded : List String) (deadline fuel : ℕ)
    → IsQuiet s (poll_route w host excluded deadline fuel)
unfolding poll_route
poll_route-IsQuiet s w host excluded deadline zero = search quiet
poll_route-IsQuiet s w host excluded deadline (suc fuel) =
    search (quiet, route_info-IsQuiet, poll_route-IsQuiet s w host excluded deadline fuel)

pub resolve-IsQuiet :
    (s : String) (w : World) (host : String) (excluded : List String)
    → IsQuiet s (resolve_underlay_route w host excluded)
unfolding resolve_underlay_route IsQuiet
resolve-IsQuiet s w host excluded m =
    poll_route-IsQuiet s w host excluded (w.clock m.history + 5000) route_rounds m

poll_tun-IsQuiet :
    (s : String) (w : World) (name : String) (deadline fuel : ℕ)
    → IsQuiet s (poll_tun w name deadline fuel)
unfolding poll_tun
poll_tun-IsQuiet s w name deadline zero = search quiet
poll_tun-IsQuiet s w name deadline (suc fuel) =
    search (quiet, poll_tun-IsQuiet s w name deadline fuel)

wait_for_tun-IsQuiet : (s : String) (w : World) (name : String) → IsQuiet s (wait_for_tun w name)
unfolding wait_for_tun IsQuiet
wait_for_tun-IsQuiet s w name m = poll_tun-IsQuiet s w name (w.clock m.history + 30000) tun_rounds m

pub bring_up-IsQuiet : (s : String) (w : World) (config : Instance) → IsQuiet s (bring_up w config)
unfolding bring_up
bring_up-IsQuiet s w config = search (quiet, wait_for_tun-IsQuiet, set_nm_managed-IsQuiet)

on_probe-IsQuiet :
    (s : String) (again : Act (Unit {0})) (r : Result (Unit {0}))
    → IsQuiet s again
    → IsQuiet s (on_probe again r)
on_probe-IsQuiet s again (ok u) h = h
on_probe-IsQuiet s again (err e) h = search quiet

await_exit-IsQuiet :
    (s : String) (w : World) (pid deadline fuel : ℕ) → IsQuiet s (await_exit w pid deadline fuel)
unfolding await_exit
await_exit-IsQuiet s w pid deadline zero = search quiet
await_exit-IsQuiet s w pid deadline (suc fuel) =
    search (quiet, on_probe-IsQuiet, await_exit-IsQuiet s w pid deadline fuel)

until_exit-IsQuiet : (s : String) (w : World) (pid : ℕ) → IsQuiet s (until_exit w pid)
unfolding IsQuiet
until_exit-IsQuiet s w pid m = await_exit-IsQuiet s w pid (w.clock m.history + 5000) exit_rounds m

pub terminate_process-IsQuiet :
    (s : String) (w : World) (pid : ℕ) → IsQuiet s (terminate_process w pid)
terminate_process-IsQuiet s w pid = search (quiet, until_exit-IsQuiet)

pub delete_routes-IsQuiet :
    (s : String) (w : World) (config : Instance) → IsQuiet s (delete_routes w config)
delete_routes-IsQuiet s w config = search quiet depth 12

pub pin_route-IsQuiet :
    (s : String) (w : World) (config : Instance) (underlay : Dict String String)
    → IsQuiet s (pin_route w config underlay)
pin_route-IsQuiet s w config underlay = search quiet

pub popen-IsQuiet : (s : String) (w : World) (args : List String) → IsQuiet s (popen w args)
unfolding IsQuiet left_stopped
popen-IsQuiet s w args m = (refl, refl, refl)
