-- ===== src/Windows/Rounds.antt =====
-- desktop/veil_vpn_agent.py: the loop of `run`, and what other tasks and processes do meanwhile.
use veil_python_stack.Prelude.{
  String, Bool, true, false, ◌&&◌, Option, none, some, [], ◌∷◌, if◌then◌else◌, or_else,
}
use veil_python_stack.Errors.{Result, ok, err}
use veil_python_stack.Message.{boolean, text}
use veil_python_stack.Dataclass.{Instance}
use veil_python_stack.Windows.State.{write_runtime_command, mark_agent_stopped}
use veil_python_stack.Windows.Agent.{
  Agent, Outside, Link, update_state, disconnect, consume_command_if_present, connect_once,
}

abbrev pub pending : Outside → String → Result (Unit {0}) × Agent → Result (Unit {0}) × Agent
pending o reason (err e, a) = (err e, a)
pending o reason (ok u, a) = (
  ok u,
  if a.should_be_connected
      then update_state o
          (("connected", boolean false)
            ∷ ("last_event", text "reconnect_pending")
            ∷ ("last_error", text reason)
            ∷ [])
          a
      else a,
)

abbrev pub check_link : Outside → Option String → Agent → Result (Unit {0}) × Agent
check_link o none a = (ok tt, a)
check_link o (some reason) a =
    let reason' = or_else reason "transport_closed" in pending o reason' (disconnect o reason' a)

abbrev pub monitor_with : Outside → Option Link → Agent → Result (Unit {0}) × Agent
monitor_with o none a = (
  ok tt,
  if a.should_be_connected
      then a
      else update_state o (("connected", boolean false) ∷ ("last_event", text "idle") ∷ []) a,
)
monitor_with o (some link) a =
    if a.should_be_connected
    then check_link o link.close_reason a
    else disconnect o "command_down" a

-- `_monitor_connection`
unfoldable pub monitor_connection : Outside → Agent → Result (Unit {0}) × Agent
unfolding update_state disconnect
monitor_connection o a = monitor_with o a.connection a

abbrev pub is_none {ℓ} : {A : Type ℓ} → Option A → Bool
is_none none = true
is_none (some a) = false

abbrev pub followed :
    Result (Unit {0}) × Agent → (Agent → Result (Unit {0}) × Agent) → Result (Unit {0}) × Agent
followed (ok u, a) next = next a
followed (err e, a) next = (err e, a)

abbrev pub connect_if : Outside → Agent → Result (Unit {0}) × Agent
connect_if o a =
    if a.should_be_connected && is_none a.connection then connect_once o a else (ok tt, a)

-- The body of the inner `try`
abbrev pub attempt_round : Outside → Agent → Result (Unit {0}) × Agent
attempt_round o a =
    followed (followed (consume_command_if_present o a) (connect_if o)) (monitor_connection o)

abbrev pub recovered : Outside → Result (Unit {0}) × Agent → Result (Unit {0}) × Agent
recovered o (ok u, a) = (ok u, a)
recovered o (err e, a) = disconnect o "agent_loop_error" a

-- A round of the loop, which goes on if no exception is raised
unfoldable pub round : Outside → Agent → Result (Unit {0}) × Agent
unfolding consume_command_if_present connect_once monitor_connection disconnect
round o a = recovered o (attempt_round o a)

abbrev marked : Outside → Result (Unit {0}) × Agent → Result (Unit {0}) × Agent
marked o (err e, a) = (err e, a)
marked o (ok u, a) = (ok u, record a { files = mark_agent_stopped o.now "" a.files })

-- The `finally` of `run`
unfoldable pub shut_down : Outside → Agent → Result (Unit {0}) × Agent
unfolding disconnect mark_agent_stopped
shut_down o a = marked o (disconnect o "agent_shutdown" a)

-- The start of `run`
unfoldable pub start_agent : Outside → Agent → Agent
unfolding update_state
start_agent o a =
    update_state o
      (("running", boolean true)
        ∷ ("connected", boolean false)
        ∷ ("last_event", text "agent_started")
        ∷ ("last_error", text "")
        ∷ [])
      a

abbrev pub closed_with : String → Option Link → Option Link
closed_with reason none = none
closed_with reason (some link) = some (record link { close_reason = some reason })

-- Between two rounds: the connection ends, a pump fails, or a command is written.
pub data Event : Type 0 where
  connection_ended : (reason : String) → Event
  pump_failed : Outside → (event error : String) → Event
  command_written : (now command : String) → Instance → Event

-- `_pump_vpn_to_os` and `_pump_os_to_vpn` end by an exception in `pump_failed`.
unfoldable pub meanwhile : Event → Agent → Agent
unfolding update_state write_runtime_command
meanwhile (connection_ended reason) a = record a { connection = closed_with reason a.connection }
meanwhile (pump_failed o event error) a =
    record (update_state o (("last_event", text event) ∷ ("last_error", text error) ∷ []) a) {
      should_be_connected = false;
    }
meanwhile (command_written now command config) a = record a {
  files = write_runtime_command now command config a.files;
}
