-- ===== src/Linux.antt =====
-- veil_core/linux_client_app.py, the part that starts and stops the VPN client on a machine.
--
-- The machine's programs, processes and clock answer to the commands that were given so far. What
-- they answer is a parameter, so the theorems hold for every machine.
pub mod Services
pub mod Routes
pub mod Start
pub mod Stop
pub mod Quiet
pub mod Suspended
pub mod Recovery
pub mod Waiting
use veil_python_stack.Prelude.{
  ℕ, String, Bool, true, false, not, ◌&&◌, Option, none, some, List, [], ◌∷◌, nat_eq, ◌==◌,
  if◌then◌else◌,
}
use veil_python_stack.Prelude.Dict.{Dict}
use veil_python_stack.Errors.{Result, ok, err, Error, called_process_error}
use veil_python_stack.Message.{Value, Json}

pub data Signal : Type 0 where
  probe terminate force : Signal

-- What the program asks of the machine: to run a program to its end, to start one, to signal a
-- process (`probe` is `os.kill(pid, 0)`), and to sleep for some milliseconds.
pub data Command : Type 0 where
  run : (arguments : List String) → Command
  spawn : (arguments : List String) → Command
  signal : Signal → (pid : ℕ) → Command
  sleep : (milliseconds : ℕ) → Command

pub record Completed : Type 0 where
  pub returncode : ℕ
  pub stdout : String

-- What the machine answers to the newest command, which stands first, after the others. `clock` is
-- `time.monotonic()` in milliseconds; `systemctl`, `nmcli` and `python` are what `shutil.which`
-- finds.
pub record World : Type 0 where
  pub completed : List Command → Completed
  pub spawned : List Command → Result ℕ
  pub signalled : List Command → Result (Unit {0})
  pub clock : List Command → ℕ
  pub systemctl : Bool
  pub nmcli : Option String
  pub python : String
  pub repo_root : String
  pub json : Json

-- An entry of `_detect_conflicting_services`
pub record Conflict : Type 0 where
  pub service : String
  pub interface : String
  pub was_active : Bool
  pub was_enabled : Bool
  pub interface_present : Bool

-- The runtime state file
pub record RuntimeState : Type 0 where
  pub server_host : Value
  pub server_port : Value
  pub tun_name : Value
  pub underlay_route : Dict String String
  pub suspended_conflicts : List Conflict
  pub env_python : String
  pub command : List String

-- The commands so far, and the files of `runtime_files`, if they exist; a pid file whose text is no
-- number, for which `int` raises ValueError, is left out.
pub record Machine : Type 0 where
  pub history : List Command
  pub pid_file : Option ℕ
  pub state_file : Option RuntimeState

-- What part of the program does; it may raise.
abbrev pub Act {ℓ} : Type ℓ → Type ℓ
Act A = Machine → Result A × Machine

abbrev pub after {ℓ κ} :
    {A : Type ℓ} {B : Type κ} → Result A × Machine → (A → Act B) → Result B × Machine
after (ok a, m) rest = rest a m
after (err e, m) rest = (err e, m)

infixl 4 ◌>>>◌
abbrev pub ◌>>>◌ {ℓ κ} : {A : Type ℓ} {B : Type κ} → Act A → (A → Act B) → Act B
(first >>> rest) m = after (first m) rest

-- `try` with what follows either outcome
abbrev pub attempt {ℓ κ} : {A : Type ℓ} {B : Type κ} → Act A → (Result A → Act B) → Act B
attempt act handler m = handler (act m).0 (act m).1

abbrev pub lift {ℓ} : {A : Type ℓ} → Result A → Act A
lift r m = (r, m)

abbrev pub done {ℓ} : {A : Type ℓ} → A → Act A
done a m = (ok a, m)

abbrev pub raise {ℓ} : (A : Type ℓ) → Error → Act A
raise A e m = (err e, m)

abbrev pub branch {ℓ} : {A : Type ℓ} → (Machine → Bool) → Act A → Act A → Act A
branch test act other m = if test m then act m else other m

abbrev pub issue : Command → Machine → Machine
issue c m = record m { history = c ∷ m.history }

abbrev pub pause : ℕ → Act (Unit {0})
pause milliseconds m = (ok tt, issue (sleep milliseconds) m)

abbrev pub checked : Bool → Completed → Result Completed
checked check c = if check && not (c.returncode == 0) then err called_process_error else ok c

-- `subprocess.run(args, check=check)`: `_run_command`, and `_run_ip` with "ip" in front
unfoldable pub run_command : World → (check : Bool) → List String → Act Completed
run_command w check args m =
    (checked check (w.completed (run args ∷ m.history)), issue (run args) m)

unfoldable pub run_ip : World → (check : Bool) → List String → Act Completed
unfolding run_command
run_ip w check args = run_command w check ("ip" ∷ args)

-- `os.kill`
unfoldable pub kill : World → Signal → ℕ → Act (Unit {0})
kill w s pid m = (w.signalled (signal s pid ∷ m.history), issue (signal s pid) m)
