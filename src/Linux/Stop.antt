-- ===== src/Linux/Stop.antt =====
-- veil_core/linux_client_app.py: `stop_runtime`.
use veil_python_stack.Prelude.{
  ℕ, zero, suc, ◌+◌, String, Bool, true, false, Option, none, some, List, [], ◌∷◌, ltb, string_eq,
  if◌then◌else◌,
}
use veil_python_stack.Errors.{Result, ok, err, is_gone}
use veil_python_stack.Text.{cat}
use veil_python_stack.Dataclass.{Instance}
use veil_python_stack.Config.{has, str_attribute}
use veil_python_stack.Linux.{
  World, Conflict, RuntimeState, Act, attempt, branch, pause, done, raise, ◌>>>◌, run_ip, kill,
  probe, terminate, force,
}
use veil_python_stack.Linux.Services.{restore_conflicting_services}

abbrev pub unless_gone : Result (Unit {0}) → Result (Unit {0})
unless_gone (ok u) = ok u
unless_gone (err e) = if is_gone e then ok tt else err e

abbrev pub on_probe : Act (Unit {0}) → Result (Unit {0}) → Act (Unit {0})
on_probe again (ok u) = again
on_probe again (err e) = if is_gone e then done tt else raise (Unit {0}) e

-- The loop that waits for the process to exit, and kills it at the deadline; without fuel too.
unfoldable pub await_exit : World → (pid deadline fuel : ℕ) → Act (Unit {0})
unfolding kill
await_exit w pid deadline zero = kill w force pid
await_exit w pid deadline (suc fuel) =
    branch (λ m. ltb (w.clock m.history) deadline)
      (attempt (kill w probe pid)
        (on_probe (pause 200 >>> λ slept. await_exit w pid deadline fuel)))
      (kill w force pid)

-- Rounds of 200 milliseconds up to a deadline after five seconds
abbrev pub exit_rounds : ℕ
exit_rounds = 26

abbrev pub until_exit : World → ℕ → Act (Unit {0})
until_exit w pid m = await_exit w pid (w.clock m.history + 5000) exit_rounds m

abbrev pub terminate_process : World → ℕ → Act (Unit {0})
terminate_process w pid = kill w terminate pid >>> λ sent. until_exit w pid

abbrev pub without_pid_file : Result (Unit {0}) → Act (Unit {0})
without_pid_file r m = (unless_gone r, record m { pid_file = none })

-- `except ProcessLookupError: pass`, and `finally` the pid file is removed.
abbrev pub stop_process : World → Option ℕ → Act (Unit {0})
stop_process w none = done tt
stop_process w (some pid) = attempt (terminate_process w pid) without_pid_file

abbrev pub conflicts_of : Option RuntimeState → List Conflict
conflicts_of none = []
conflicts_of (some state) = state.suspended_conflicts

abbrev is_some {ℓ} : {A : Type ℓ} → Option A → Bool
is_some none = false
is_some (some a) = true

abbrev pub tun_of : World → Instance → String
tun_of w config = str_attribute w.json "tun_name" config

abbrev pub server_route : World → Instance → String
server_route w config = cat (str_attribute w.json "server_host" config) "/32"

abbrev pub delete_server_route : World → Instance → Act (Unit {0})
delete_server_route w config =
    if has "server_host" config
    then (run_ip w false ("route" ∷ "del" ∷ server_route w config ∷ []) >>> λ c. done tt)
    else done tt

abbrev pub delete_routes : World → Instance → Act (Unit {0})
delete_routes w config =
    run_ip w false ("route" ∷ "del" ∷ "0.0.0.0/1" ∷ "dev" ∷ tun_of w config ∷ []) >>> λ a.
    run_ip w false ("route" ∷ "del" ∷ "128.0.0.0/1" ∷ "dev" ∷ tun_of w config ∷ []) >>> λ b.
    delete_server_route w config >>> λ c.
    run_ip w false ("link" ∷ "delete" ∷ "dev" ∷ tun_of w config ∷ []) >>> λ d. done tt

pub record Stopped : Type 0 where
  pub tun_name : String
  pub had_state : Bool
  pub restored_conflicts : List Conflict

abbrev pub remove_state : Act (Unit {0})
remove_state m = (ok tt, record m { state_file = none })

-- `stop_runtime`
unfoldable pub stop_runtime : World → Instance → Act Stopped
unfolding run_ip kill await_exit has str_attribute restore_conflicting_services
stop_runtime w config m =
    (stop_process w m.pid_file >>> λ stopped. delete_routes w config >>> λ deleted.
    restore_conflicting_services w (conflicts_of m.state_file) >>> λ restored.
    remove_state >>> λ removed. done (record {
      tun_name = tun_of w config;
      had_state = is_some m.state_file;
      restored_conflicts = conflicts_of m.state_file;
    }))
      m
