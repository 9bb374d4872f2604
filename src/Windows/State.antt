-- ===== src/Windows/State.antt =====
-- veil_core/windows_client_app.py: the files by which the agent and the commands talk to each other.
use veil_python_stack.Prelude.{
  ℕ, String, Bool, true, false, not, ◌&&◌, Option, none, some, [], ◌∷◌, if◌then◌else◌, string_eq,
  or_default,
}
use veil_python_stack.Prelude.Dict.{Dict, lookup, merge}
use veil_python_stack.Prelude.Int.{pos}
use veil_python_stack.Errors.{Result, ok, err, ◌>>=◌, runtime_error}
use veil_python_stack.Message.{Value, null, boolean, number, text, object, fields, truthy}
use veil_python_stack.Dataclass.{Instance}

-- The command file, the state file and the pid file, if they exist
pub record Files : Type 0 where
  pub command_file : Option (Dict String Value)
  pub state_file : Option (Dict String Value)
  pub pid_file : Option ℕ

abbrev initial_state : Dict String Value
initial_state =
    ("installed", boolean false)
    ∷ ("running", boolean false)
    ∷ ("connected", boolean false)
    ∷ ("pid", null)
    ∷ ("mode", text "windows-agent")
    ∷ ("tunnel_backend", text "pending_wintun")
    ∷ ("last_error", text "")
    ∷ ("last_event", text "unknown")
    ∷ ("updated_at", text "")
    ∷ []

-- `read_runtime_state`
abbrev pub read_runtime_state : Files → Dict String Value
read_runtime_state f = or_default f.state_file initial_state

-- `write_runtime_state`
abbrev pub write_runtime_state : Dict String Value → Files → Files
write_runtime_state state f = record f { state_file = some state }

-- `write_runtime_command`, at the second that `now` names
unfoldable pub write_runtime_command : (now : String) → String → Instance → Files → Files
write_runtime_command now command config f = record f {
  command_file = some (
      ("command", text command)
      ∷ ("config", object (fields config))
      ∷ ("issued_at", text now)
      ∷ []);
}

-- `mark_agent_stopped`
unfoldable pub mark_agent_stopped : (now reason : String) → Files → Files
unfolding merge
mark_agent_stopped now reason f = record f {
  pid_file = none;
  state_file = some (
      merge (read_runtime_state f) (
        ("running", boolean false)
        ∷ ("connected", boolean false)
        ∷ ("pid", null)
        ∷ ("last_event", text "agent_stopped")
        ∷ ("last_error", text reason)
        ∷ ("updated_at", text now)
        ∷ []));
}

-- `pid = read_agent_pid(paths) or state.get("pid")`
abbrev pub known_pid : Option ℕ → Option Value → Value
known_pid (some pid) v = if truthy (number (pos pid)) then number (pos pid) else or_default v null
known_pid none v = or_default v null

unfoldable pub is_true : Option Value → Bool
unfolding truthy
is_true none = false
is_true (some v) = truthy v

pub record Launch : Type 0 where
  pub launched : Bool
  pub pid : Value

abbrev pub is_running : (alive : Value → Bool) → Files → Bool
is_running alive f =
    is_true (lookup "running" (read_runtime_state f))
    && alive (known_pid f.pid_file (lookup "pid" (read_runtime_state f)))

abbrev launch_entries : Value → (running : Bool) → (error event now : String) → Dict String Value
launch_entries pid running error event now =
    ("installed", boolean true)
    ∷ ("running", boolean running)
    ∷ ("connected", boolean false)
    ∷ ("pid", pid)
    ∷ ("mode", text "windows-agent")
    ∷ ("tunnel_backend", text "pending_wintun")
    ∷ ("last_error", text error)
    ∷ ("last_event", text event)
    ∷ ("updated_at", text now)
    ∷ []

abbrev launched_with : String → ℕ → Files → Launch × Files
launched_with now pid f = (
  record { launched = true; pid = number (pos pid) },
  record f {
    pid_file = some pid;
    state_file = some (
        merge (read_runtime_state f)
          (launch_entries (number (pos pid)) true "" "agent_launched" now));
  },
)

abbrev skipped : String → Files → Launch × Files
skipped now f = (
  record { launched = false; pid = null },
  write_runtime_state
      (merge (read_runtime_state f)
        (launch_entries null false "agent_script_missing" "launch_skipped" now))
      f,
)

abbrev started : String → Files → Result ℕ → Result (Launch × Files)
started now f (ok pid) = ok (launched_with now pid f)
started now f (err e) = err e

-- `launch_agent`: whether Python or an executable is there, whether the script is, which processes
-- are alive, and what starting the process gives are the machine's.
unfoldable pub launch_agent :
    (now : String) (runnable script : Bool) (alive : Value → Bool) (process : Result ℕ)
    → Files
    → Result (Launch × Files)
unfolding lookup is_true truthy merge
launch_agent now runnable script alive process f =
    if not runnable
    then err (runtime_error "Python executable not detected")
    else if is_running alive f
    then ok (
      record { launched = false; pid = known_pid f.pid_file (lookup "pid" (read_runtime_state f)) },
      f,
    )
    else if script
    then started now f process
    else ok (skipped now f)

-- `start_runtime` and `stop_runtime`
unfoldable pub start_windows :
    (now : String) (is_admin runnable script : Bool) (alive : Value → Bool) (process : Result ℕ)
    → Instance
    → Files
    → Result (Launch × Files)
unfolding launch_agent write_runtime_command
start_windows now is_admin runnable script alive process config f =
    if is_admin
    then (launch_agent now runnable script alive process f >>= λ r.
        ok (r.0, write_runtime_command now "up" config r.1))
    else err (runtime_error "Administrator rights are required.")

unfoldable pub stop_windows : (now : String) → Instance → Files → Files
unfolding write_runtime_command
stop_windows now config f = write_runtime_command now "down" config f

-- The entries "running" and "connected" of `read_runtime_status`
unfoldable pub status_running : (alive : Value → Bool) → Files → Bool
unfolding lookup is_true truthy
status_running alive f = is_running alive f

unfoldable pub status_connected : (alive : Value → Bool) → Files → Bool
unfolding status_running lookup is_true
status_connected alive f =
    is_true (lookup "connected" (read_runtime_state f)) && status_running alive f
