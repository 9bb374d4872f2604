-- ===== src/Linux/Start.antt =====
-- veil_core/linux_client_app.py: `start_runtime`.
use veil_python_stack.Prelude.{
  ℕ, zero, suc, ◌+◌, String, Bool, true, false, Option, none, some, List, [], ◌∷◌, ◌++◌, ltb,
  nat_eq, string_eq, ◌==◌, if◌then◌else◌, or_default,
}
use veil_python_stack.Prelude.Dict.{Dict, lookup}
use veil_python_stack.Errors.{Result, ok, err, Error, is_gone, runtime_error}
use veil_python_stack.Message.{is_text, str_of}
use veil_python_stack.Text.{cat, strip}
use veil_python_stack.Dataclass.{Instance, attribute}
use veil_python_stack.Config.{has, either, str_attribute}
use veil_python_stack.Linux.{
  World, Conflict, RuntimeState, Act, attempt, branch, pause, done, raise, ◌>>>◌, run_ip, kill,
  issue, probe, spawn,
}
use veil_python_stack.Linux.Services.{
  detect_conflicting_services, suspend_conflicting_services, format_conflict_message,
  set_nm_managed,
}
use veil_python_stack.Linux.Routes.{resolve_underlay_route}
use veil_python_stack.Linux.Stop.{stop_runtime, tun_of, server_route}

abbrev already_running : Error
already_running = runtime_error "Client already running"

-- The probe of the process in the pid file: a stale file is removed.
abbrev pub remove_pid_file : Act (Unit {0})
remove_pid_file m = (ok tt, record m { pid_file = none })

abbrev pub on_check : Result (Unit {0}) → Act (Unit {0})
on_check (ok u) = raise (Unit {0}) already_running
on_check (err e) = if is_gone e then remove_pid_file else raise (Unit {0}) e

abbrev pub check_pid : World → Option ℕ → Act (Unit {0})
check_pid w none = done tt
check_pid w (some pid) = attempt (kill w probe pid) on_check

abbrev pub refuse_conflicts : Bool → List Conflict → Act (Unit {0})
refuse_conflicts suspend [] = done tt
refuse_conflicts suspend (c ∷ cs) =
    if suspend then done tt else raise (Unit {0}) (runtime_error (format_conflict_message (c ∷ cs)))

-- The checks before anything is changed
unfoldable pub check_start : World → Instance → Act (List Conflict)
unfolding detect_conflicting_services kill format_conflict_message has
check_start w config = detect_conflicting_services w >>> λ conflicts.
    (λ m. check_pid w m.pid_file m) >>> λ free.
    refuse_conflicts (has "suspend_conflicting_services" config) conflicts >>> λ allowed.
    done conflicts

abbrev pub suspend_if : World → Bool → Act (List Conflict)
suspend_if w true = suspend_conflicting_services w
suspend_if w false = done []

abbrev pub interfaces : List Conflict → List String
interfaces [] = []
interfaces (c ∷ cs) =
    if strip c.interface == "" then interfaces cs else strip c.interface ∷ interfaces cs

abbrev via_words : Option String → List String
via_words none = []
via_words (some via) = "via" ∷ via ∷ []

-- The host route to the server, outside the tunnel
abbrev pub pin_route : World → Instance → Dict String String → Act (Dict String String)
pin_route w config underlay =
    run_ip w true (
      "route"
      ∷ "replace"
      ∷ server_route w config
      ∷ (via_words (lookup "via" underlay) ++ "dev" ∷ or_default (lookup "dev" underlay) "" ∷ []))
    >>> λ c. done underlay

abbrev option : World → Instance → String → String → List String → List String
option w config name key rest = name ∷ str_attribute w.json key config ∷ rest

abbrev static_options : World → Instance → List String
static_options w config =
    if is_text "static" (lookup "tunnel_mode" config)
    then option w config "--tun-address" "tun_address" (option w config "--tun-peer" "tun_peer" [])
    else []

abbrev switch : Instance → String → String → List String
switch config name key = if has key config then name ∷ [] else []

-- `command`
unfoldable pub client_command : World → Instance → List String
unfolding str_attribute has either lookup str_of
client_command w config =
    w.python
    ∷ cat w.repo_root "/examples/linux_vpn_proxy.py"
    ∷ "--mode"
    ∷ "client"
    ∷ option w config "--host" "server_host" (
        option w config "--port" "server_port" (
          option w config "--tun-name" "tun_name" (
            option w config "--packet-mtu" "packet_mtu" (
              option w config "--name" "client_name" (
                "--client-id"
                ∷ str_of w.json (either "client_id" "client_name" config)
                ∷ option w config "--keepalive-interval" "keepalive_interval" (
                    option w config "--keepalive-timeout" "keepalive_timeout" (
                      option w config "--psk-hex" "psk_hex" (
                        option w config "--protocol-wrapper" "protocol_wrapper" (
                          option w config "--persona-preset" "persona_preset" (
                            option w config "--rotation-interval-seconds"
                              "rotation_interval_seconds"
                              (option w config "--handshake-timeout-ms" "handshake_timeout_ms" (
                                option w config "--session-idle-timeout-ms"
                                  "session_idle_timeout_ms"
                                  (option w config "--transport-mtu" "transport_mtu" (
                                    switch config "--enable-http-handshake-emulation"
                                      "enable_http_handshake_emulation"
                                    ++ (static_options w config
                                        ++ switch config "--reconnect" "reconnect")))))))))))))))

-- `subprocess.Popen`, and the files that record the process
abbrev pub popen : World → List String → Act ℕ
popen w args m = (w.spawned (spawn args ∷ m.history), issue (spawn args) m)

abbrev pub write_files : RuntimeState → ℕ → Act ℕ
write_files state pid m = (ok pid, record m { pid_file = some pid; state_file = some state })

abbrev pub state_of : World → Instance → Dict String String → List Conflict → RuntimeState
state_of w config underlay suspended = record {
  server_host = attribute "server_host" config;
  server_port = attribute "server_port" config;
  tun_name = attribute "tun_name" config;
  underlay_route = underlay;
  suspended_conflicts = suspended;
  env_python = w.python;
  command = client_command w config;
}

-- From the route to the process, which is recorded with the services that were suspended
unfoldable pub launch : World → Instance → (conflicts suspended : List Conflict) → Act ℕ
unfolding resolve_underlay_route run_ip str_attribute lookup strip attribute
launch w config conflicts suspended =
    resolve_underlay_route w (str_attribute w.json "server_host" config)
      (interfaces (conflicts ++ suspended))
    >>> pin_route w config
    >>> λ underlay.
        popen w (client_command w config) >>> write_files (state_of w config underlay suspended)

abbrev pub no_tun : Act (Unit {0})
no_tun = raise (Unit {0}) (runtime_error "TUN did not appear in time")

-- The loop of `_wait_for_tun`. Without fuel it ends as it does at the deadline.
unfoldable pub poll_tun : World → String → (deadline fuel : ℕ) → Act (Unit {0})
unfolding run_ip
poll_tun w name deadline zero = no_tun
poll_tun w name deadline (suc fuel) =
    branch (λ m. ltb (w.clock m.history) deadline)
      (run_ip w false ("link" ∷ "show" ∷ "dev" ∷ name ∷ []) >>> λ c.
        if c.returncode == 0
        then done tt
        else (pause 500 >>> λ slept. poll_tun w name deadline fuel))
      no_tun

-- Rounds of 500 milliseconds up to a deadline after thirty seconds
abbrev pub tun_rounds : ℕ
tun_rounds = 61

-- `_wait_for_tun`
unfoldable pub wait_for_tun : World → String → Act (Unit {0})
unfolding poll_tun
wait_for_tun w name m = poll_tun w name (w.clock m.history + 30000) tun_rounds m

-- What is done once the process runs
unfoldable pub bring_up : World → Instance → Act (Unit {0})
unfolding wait_for_tun set_nm_managed run_ip str_attribute
bring_up w config = wait_for_tun w (tun_of w config) >>> λ there.
    set_nm_managed w (tun_of w config) false >>> λ set.
    run_ip w true ("route" ∷ "replace" ∷ "0.0.0.0/1" ∷ "dev" ∷ tun_of w config ∷ []) >>> λ a.
    run_ip w true ("route" ∷ "replace" ∷ "128.0.0.0/1" ∷ "dev" ∷ tun_of w config ∷ []) >>> λ b.
    done tt

pub record Started : Type 0 where
  pub pid : ℕ
  pub tun_name : String
  pub suspended_conflicts : List Conflict

-- After `stop_runtime`, which may raise itself, the first exception is raised again.
abbrev pub on_bring_up : World → Instance → Result (Unit {0}) → Act (Unit {0})
on_bring_up w config (ok u) = done tt
on_bring_up w config (err e) = stop_runtime w config >>> λ stopped. raise (Unit {0}) e

abbrev pub launched : World → Instance → List Conflict → List Conflict → Act Started
launched w config conflicts suspended = launch w config conflicts suspended >>> λ pid.
    attempt (bring_up w config) (on_bring_up w config) >>> λ up.
    done (record { pid = pid; tun_name = tun_of w config; suspended_conflicts = suspended })

-- `start_runtime`
unfoldable pub start_runtime : World → Instance → Act Started
unfolding check_start has suspend_conflicting_services launch bring_up stop_runtime str_attribute
start_runtime w config = check_start w config >>> λ conflicts.
    suspend_if w (has "suspend_conflicting_services" config) >>> λ suspended.
    launched w config conflicts suspended
