-- ===== src/Vpn/Runtime.antt =====
-- veil_core/vpn.py: the two tasks of a started `VpnConnection`, `_run` and `_run_keepalive`, as steps
-- on its state: what the event loop brings to either task, in any order.
use veil_python_stack.Asyncio.{Turn, Await, queue_get, wait_for_get}
use veil_python_stack.Prelude.{
  ℕ, ◌-◌, String, Bool, true, false, List, [], ◌∷◌, ◌++◌, length, nat_eq, string_eq, ◌==◌,
  if◌then◌else◌,
}
use veil_python_stack.Prelude.Dict.{Dict}
use veil_python_stack.Prelude.Int.{pos, ltb_ℤ}
use veil_python_stack.Errors.{Error, Result, ok, err}
use veil_python_stack.Events.{
  Event, new_connection_event, data_event, disconnected_event, error_event, kind, kind_value,
}
use veil_python_stack.Message.{Value, number, text, Json}
use veil_python_stack.Text.{cat}
use veil_python_stack.Vpn.{
  Connection, Net, is_closed, mark_closed, cancel_closed, touch_activity, drop_session, put_control,
  send_control,
}
use veil_python_stack.Vpn.Control.{decode_control, handle_runtime_control}

-- The connection and which of its tasks have not ended.
pub record Runtime : Type 0 where
  pub connection : Connection
  pub event_task : Bool
  pub keepalive_task : Bool

-- What the event loop brings: an event to `_run` at a time, the end of a sleep of `_run_keepalive`
-- at a time, a cancellation of either task from outside, or the end of a `wait_closed` that times out or
-- whose task is cancelled, which cancels the future `_closed`.
pub data Input : Type 0 where
  delivered : ℕ → Event → Input
  tick : ℕ → Input
  cancel_run cancel_keepalive wait_closed_timeout : Input

-- What a round of the loop of `_run` says to the loop.
pub data Verdict : Type 0 where
  continue break : Verdict
  raised : Error → Verdict

-- The entries that `_run` reports in the control queue.
abbrev unhandled_stream : ℕ → List ℕ → Dict String Value
unhandled_stream i payload =
    ("type", text "vpn.unhandled_stream")
    ∷ ("stream_id", number (pos i))
    ∷ ("size", number (pos (length payload)))
    ∷ []

abbrev transport_error : String → Dict String Value
transport_error m = ("type", text "vpn.transport_error") ∷ ("message", text m) ∷ []

abbrev unhandled_event : Event → Dict String Value
unhandled_event e =
    ("type", text "vpn.unhandled_event") ∷ ("event", text (kind_value (kind e))) ∷ []

abbrev pub put_packet : ℕ → List ℕ → Connection → Connection
put_packet s payload c = record c { packet_queue = c.packet_queue ++ (s, payload) ∷ [] }

abbrev verdict_of : Result Bool × Connection → Verdict × Connection
verdict_of (ok true, c) = (break, c)
verdict_of (ok false, c) = (continue, c)
verdict_of (err e, c) = (raised e, c)

-- `describe` is `str` of an exception.
module _ (net : Net) (json : Json) (describe : Error → String) where
  abbrev pub on_control : Result (Dict String Value) → Connection → Verdict × Connection
  on_control (ok message) c = verdict_of (handle_runtime_control net json message c)
  on_control (err e) c = (raised e, c)

  -- The branches of `_run` on a data event, once the activity is noted
  abbrev on_data : ℕ → ℕ → List ℕ → Connection → Verdict × Connection
  on_data s i payload c =
      if i == c.packet_stream_id
      then (continue, put_packet s payload c)
      else if i == c.control_stream_id
      then on_control (decode_control json payload) c
      else (continue, put_control (unhandled_stream i payload) c)

  -- The body of the loop of `_run` on an event
  unfoldable pub handle_event : ℕ → Event → Connection → Verdict × Connection
  handle_event now (data_event s i payload) c = on_data s i payload (touch_activity now c)
  handle_event now (disconnected_event s reason) c =
      (break, mark_closed (if reason == "" then "transport_disconnected" else reason) c)
  handle_event now (error_event s m) c = (continue, put_control (transport_error m) c)
  handle_event now (new_connection_event s h p) c =
      (continue, put_control (unhandled_event (new_connection_event s h p)) c)

  abbrev runtime_failure : Error → Connection → Connection
  runtime_failure e c =
      put_control (("type", text "vpn.runtime_error") ∷ ("message", text (describe e)) ∷ [])
        (mark_closed (cat "runtime_error:" (describe e)) c)

  -- The `finally` block of `_run`: `_stop_background_tasks` ends the keepalive task, and
  -- `self.close_reason or "stopped"` is set, unless the future has its outcome. Of a cancelled future
  -- `close_reason` raises CancelledError, which ends the task as well.
  abbrev ended : Connection → Runtime
  ended c = record {
    connection = mark_closed "stopped" c;
    event_task = false;
    keepalive_task = false;
  }

  -- The handlers of `_run`
  abbrev conclude : Bool → Verdict × Connection → Runtime
  conclude keepalive (continue, c) = record {
    connection = c;
    event_task = true;
    keepalive_task = keepalive;
  }
  conclude keepalive (break, c) = ended c
  conclude keepalive (raised e, c) = ended (runtime_failure e c)

  abbrev pinged : Bool → Result (Unit {0}) × Connection → Runtime
  pinged running (ok u, c) = record { connection = c; event_task = running; keepalive_task = true }
  pinged running (err e, c) = record {
    connection = drop_session (mark_closed (cat "keepalive_error:" (describe e)) c);
    event_task = running;
    keepalive_task = false;
  }

  -- One round of `_run_keepalive` after its sleep
  unfoldable pub keepalive : ℕ → Bool → Connection → Runtime
  keepalive now running c =
      if is_closed c
      then record { connection = c; event_task = running; keepalive_task = false }
      else if ltb_ℤ c.keepalive_timeout (pos (now - c.last_rx_time))
      then record {
        connection = drop_session (mark_closed "keepalive_timeout" c);
        event_task = running;
        keepalive_task = false;
      }
      else pinged running (send_control net json (("type", text "vpn.ping") ∷ []) c)

  unfoldable pub step : Input → Runtime → Runtime
  unfolding handle_event keepalive
  step (delivered now e) r =
      if r.event_task then conclude r.keepalive_task (handle_event now e r.connection) else r
  step (tick now) r = if r.keepalive_task then keepalive now r.event_task r.connection else r
  step cancel_run r = if r.event_task then ended (mark_closed "task_cancelled" r.connection) else r
  step cancel_keepalive r = record r { keepalive_task = false }
  step wait_closed_timeout r = record r { connection = cancel_closed r.connection }

  unfoldable pub run : List Input → Runtime → Runtime
  unfolding step
  run [] r = r
  run (i ∷ is) r = run is (step i r)

-- `recv_packet` and `recv_control`: the wait on the queue; what is left of the schedule comes back too.
unfoldable pub recv_packet :
    Bool
    → List (Turn (ℕ × List ℕ))
    → Connection
    → Await (ℕ × List ℕ) × Connection × List (Turn (ℕ × List ℕ))
recv_packet timed turns c =
    let (r, q, ts) =
      if timed then wait_for_get c.packet_queue turns else queue_get c.packet_queue turns in
    (r, record c { packet_queue = q }, ts)

unfoldable pub recv_control :
    Bool
    → List (Turn (Dict String Value))
    → Connection
    → Await (Dict String Value) × Connection × List (Turn (Dict String Value))
recv_control timed turns c =
    let (r, q, ts) =
      if timed then wait_for_get c.control_queue turns else queue_get c.control_queue turns in
    (r, record c { control_queue = q }, ts)
