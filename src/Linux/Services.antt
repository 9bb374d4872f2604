-- ===== src/Linux/Services.antt =====
-- veil_core/linux_client_app.py: the services and interfaces that conflict with the VPN.
use veil_python_stack.Prelude.{
  String, Bool, true, false, not, ◌&&◌, ◌||◌, Option, none, some, List, [], ◌∷◌, nat_eq, string_eq,
  ◌==◌, if◌then◌else◌,
}
use veil_python_stack.Text.{cat, join, strip}
use veil_python_stack.Linux.{World, Completed, Conflict, Act, done, ◌>>>◌, run_command, run_ip}

abbrev answered : List String → Completed → Bool
answered [] c = false
answered (word ∷ words) c = (c.returncode == 0 && strip c.stdout == word) || answered words c

-- `_service_is_active`
unfoldable pub service_is_active : World → String → Act Bool
unfolding run_command strip
service_is_active w service =
    if w.systemctl
    then (run_command w false ("systemctl" ∷ "is-active" ∷ service ∷ []) >>> λ c.
        done (answered ("active" ∷ []) c))
    else done false

-- `_service_is_enabled`
unfoldable pub service_is_enabled : World → String → Act Bool
unfolding run_command strip
service_is_enabled w service =
    if w.systemctl
    then (run_command w false ("systemctl" ∷ "is-enabled" ∷ service ∷ []) >>> λ c.
        done (answered ("enabled" ∷ "static" ∷ "generated" ∷ "alias" ∷ []) c))
    else done false

-- `_stop_service` and `_start_service`
unfoldable pub stop_service : World → String → Act (Unit {0})
unfolding run_command
stop_service w service =
    if w.systemctl
    then (run_command w true ("systemctl" ∷ "stop" ∷ service ∷ []) >>> λ c. done tt)
    else done tt

unfoldable pub start_service : World → String → Act (Unit {0})
unfolding run_command
start_service w service =
    if w.systemctl
    then (run_command w true ("systemctl" ∷ "start" ∷ service ∷ []) >>> λ c. done tt)
    else done tt

-- `_interface_exists`
unfoldable pub interface_exists : World → String → Act Bool
unfolding run_ip
interface_exists w name =
    run_ip w false ("link" ∷ "show" ∷ "dev" ∷ name ∷ []) >>> λ c. done (c.returncode == 0)

-- `_delete_interface`
unfoldable pub delete_interface : World → String → Act (Unit {0})
unfolding run_ip
delete_interface w name = run_ip w false ("link" ∷ "delete" ∷ "dev" ∷ name ∷ []) >>> λ c. done tt

abbrev pub set_with : World → String → Bool → Option String → Act (Unit {0})
set_with w name managed none = done tt
set_with w name managed (some nmcli) = interface_exists w name >>> λ there.
    if there
    then (run_command w false
          (nmcli ∷ "device" ∷ "set" ∷ name ∷ "managed" ∷ (if managed then "yes" else "no") ∷ [])
        >>> λ c. done tt)
    else done tt

-- `_set_nm_managed`
unfoldable pub set_nm_managed : World → String → Bool → Act (Unit {0})
unfolding interface_exists run_command
set_nm_managed w name managed = set_with w name managed w.nmcli

abbrev pub clash : String
clash = "clash-verge-service.service"

abbrev pub is_there : World → Bool → Act Bool
is_there w true = done true
is_there w false = interface_exists w "Mihomo"

-- `_detect_conflicting_services`
unfoldable pub detect_conflicting_services : World → Act (List Conflict)
unfolding service_is_active service_is_enabled interface_exists
detect_conflicting_services w = service_is_active w clash >>> is_there w >>> λ found.
    if found
    then (service_is_active w clash >>> λ active. service_is_enabled w clash >>> λ enabled.
        interface_exists w "Mihomo" >>> λ present. done (
          record {
            service = clash;
            interface = "Mihomo";
            was_active = active;
            was_enabled = enabled;
            interface_present = present;
          }
          ∷ []))
    else done []

abbrev labels : Conflict → List String
labels c =
    let interface = if c.interface_present then cat "interface=" c.interface ∷ [] else [] in
    if c.service == "" then interface else cat "service=" c.service ∷ interface

abbrev with_part : List String → List String → List String
with_part [] parts = parts
with_part (l ∷ ls) parts = join ", " (l ∷ ls) ∷ parts

abbrev parts_of : List Conflict → List String
parts_of [] = []
parts_of (c ∷ cs) = with_part (labels c) (parts_of cs)

abbrev joined : List String → String
joined [] = "unknown conflict"
joined (p ∷ ps) = join "; " (p ∷ ps)

-- `_format_conflict_message`
unfoldable pub format_conflict_message : List Conflict → String
unfolding join
format_conflict_message conflicts =
    cat "Conflicting VPN/TUN detected: "
      (cat (joined (parts_of conflicts)) ". Disable the other VPN client first, then connect Veil.")

abbrev pub when : Bool → Act (Unit {0}) → Act (Unit {0})
when true act = act
when false act = done tt

abbrev pub suspend_each : World → List Conflict → Act (List Conflict)
suspend_each w [] = done []
suspend_each w (c ∷ cs) = when c.was_active (stop_service w c.service) >>> λ stopped.
    when (c.interface_present && not (c.interface == "")) (delete_interface w c.interface)
    >>> λ deleted. suspend_each w cs >>> λ rest.
        done (if c.was_active || c.interface_present then c ∷ rest else rest)

-- `_suspend_conflicting_services`
unfoldable pub suspend_conflicting_services : World → Act (List Conflict)
unfolding detect_conflicting_services stop_service delete_interface
suspend_conflicting_services w = detect_conflicting_services w >>> suspend_each w

-- `_restore_conflicting_services`
unfoldable pub restore_conflicting_services : World → List Conflict → Act (Unit {0})
unfolding start_service
restore_conflicting_services w [] = done tt
restore_conflicting_services w (c ∷ cs) =
    when c.was_active (start_service w c.service) >>> λ started. restore_conflicting_services w cs
