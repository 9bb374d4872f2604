-- ===== src/Vpn/Closing.antt =====
-- How a `VpnConnection` ends: its reason, and what its tasks leave.
use veil_python_stack.Prelude.{
  ◌||◌, ℕ, ◌≡◌, refl, String, true, false, some, List, [], ◌∷◌, arith, Option-cases, inl, inr,
}
use veil_python_stack.Prelude.Dict.{Dict}
use veil_python_stack.Errors.{Error, Result, ok, err, ◌>>=◌, runtime_error}
use veil_python_stack.Events.{
  Event, new_connection_event, data_event, disconnected_event, error_event,
}
use veil_python_stack.Message.{Value, Json, text}
use veil_python_stack.Vpn.{
  Connection, Net, close_reason, mark_closed, cancel_closed, is_closed, touch_activity, transmit,
  send_control, send_packet,
}
use veil_python_stack.Vpn.Control.{handle_runtime_control, decode_control}
use veil_python_stack.Vpn.Runtime.{
  Runtime, Input, delivered, tick, cancel_run, cancel_keepalive, wait_closed_timeout, handle_event,
  on_control, keepalive, step, run,
}

-- A change that keeps the outcome of the future once there is one.
abbrev KeepsReason : Connection → Connection → Type 0
KeepsReason c c' = (r : Result String) → c.closed ≡ some r → c'.closed ≡ some r

mark_closed-KeepsReason : (why : String) (c : Connection) → KeepsReason c (mark_closed why c)
unfolding mark_closed
mark_closed-KeepsReason why c reason h = ground arith

-- The loop of `_run` goes on, or the future has an outcome.
abbrev pub IsSettled : Runtime → Type 0
IsSettled r = (r.event_task || is_closed r.connection) ≡ true

closed-reason :
    (c : Connection) → is_closed c ≡ true → (reason : Result String) × (c.closed ≡ some reason)
closed-reason c h = elim (Option-cases c.closed) [
  | inl n ↦ ground (arith, n, h)
  | inr (reason, p) ↦ (reason, p)
]

settled-closed : (r : Runtime) → IsSettled r → r.event_task ≡ false → is_closed r.connection ≡ true
settled-closed r h done = ground (arith, h, done)

send_packet_closed :
    (net : Net) (payload : List ℕ) (c : Connection) (reason : Result String)
    → c.closed ≡ some reason
    → send_packet net payload c ≡ (err (runtime_error "VPN connection is closed"), c)
unfolding send_packet
send_packet_closed net payload c reason h = rw h refl

close_reason-closed :
    (c : Connection) (reason : Result String)
    → c.closed ≡ some reason
    → close_reason c ≡ (reason >>= λ text. ok (some text))
unfolding close_reason
close_reason-closed c reason h = rw h refl

module _ (net : Net) (json : Json) (describe : Error → String) where
  send_control-closed :
      (m : Dict String Value) (c : Connection) → (send_control net json m c).1.closed ≡ c.closed
  unfolding send_control transmit
  send_control-closed m c = ground arith

  runtime_control-KeepsReason :
      (m : Dict String Value) (c : Connection)
      → KeepsReason c (handle_runtime_control net json m c).1
  unfolding handle_runtime_control send_control transmit mark_closed
  runtime_control-KeepsReason m c reason h = ground arith

  on_control-KeepsReason :
      (m : Result (Dict String Value)) (c : Connection)
      → KeepsReason c (on_control net json describe m c).1
  on_control-KeepsReason (ok m) c reason h =
      ground (arith, runtime_control-KeepsReason m c reason h)
  on_control-KeepsReason (err e) c reason h = h

  handle_event-KeepsReason :
      (now : ℕ) (e : Event) (c : Connection)
      → KeepsReason c (handle_event net json describe now e c).1
  unfolding handle_event touch_activity mark_closed
  handle_event-KeepsReason now (data_event s i d) c reason h =
      ground (arith, on_control-KeepsReason (decode_control json d) (touch_activity now c) reason h)
  handle_event-KeepsReason now (disconnected_event s r) c reason h = ground arith
  handle_event-KeepsReason now (error_event s m) c reason h = ground arith
  handle_event-KeepsReason now (new_connection_event s a p) c reason h = ground arith

  pub step-KeepsReason :
      (i : Input) (r : Runtime) → KeepsReason r.connection (step net json describe i r).connection
  unfolding step keepalive mark_closed cancel_closed
  step-KeepsReason (delivered now e) r reason h =
      ground (arith, handle_event-KeepsReason now e r.connection reason h)
  step-KeepsReason (tick now) r reason h =
      ground (arith, send_control-closed (("type", text "vpn.ping") ∷ []) r.connection)
  step-KeepsReason cancel_run r reason h = ground arith
  step-KeepsReason cancel_keepalive r reason h = h
  step-KeepsReason wait_closed_timeout r reason h = ground arith

  pub run-KeepsReason :
      (is : List Input) (r : Runtime)
      → KeepsReason r.connection (run net json describe is r).connection
  unfolding run
  run-KeepsReason [] r reason h = h
  run-KeepsReason (i ∷ is) r reason h =
      run-KeepsReason is (step net json describe i r) reason (step-KeepsReason i r reason h)

  -- Once the loop of `_run` has ended, the future has an outcome.
  step-IsSettled : (i : Input) (r : Runtime) → IsSettled r → IsSettled (step net json describe i r)
  unfolding step keepalive mark_closed cancel_closed
  step-IsSettled (delivered now e) r h = ground (arith, h)
  step-IsSettled (tick now) r h = ground (arith, h)
  step-IsSettled cancel_run r h = ground (arith, h)
  step-IsSettled cancel_keepalive r h = h
  step-IsSettled wait_closed_timeout r h = ground (arith, h)

  run-IsSettled :
      (is : List Input) (r : Runtime) → IsSettled r → IsSettled (run net json describe is r)
  unfolding run
  run-IsSettled [] r h = h
  run-IsSettled (i ∷ is) r h = run-IsSettled is (step net json describe i r) (step-IsSettled i r h)

-- From a state in which the loop of `_run` goes on or the future `_closed` has an outcome: when the
-- loop has ended, the future has one, a reason or, after a `wait_closed` that timed out or was cancelled,
-- its cancellation;
-- whatever either task is brought later, this outcome stays, `close_reason` gives that reason or raises
-- CancelledError, and `send_packet` raises RuntimeError and sends nothing.
pub ended_stays_closed :
    (net : Net) (json : Json) (describe : Error → String) (before after : List Input) (r : Runtime)
    (payload : List ℕ)
    → IsSettled r
    → (run net json describe before r).event_task ≡ false
    → (reason : Result String) × ((run net json describe before r).connection.closed ≡ some reason)
      × ((run net json describe after (run net json describe before r)).connection.closed
          ≡ some reason)
      × (close_reason (run net json describe after (run net json describe before r)).connection
          ≡ (reason >>= λ text. ok (some text)))
      × (send_packet net payload
            (run net json describe after (run net json describe before r)).connection
          ≡ (
            err (runtime_error "VPN connection is closed"),
            (run net json describe after (run net json describe before r)).connection,
          ))
ended_stays_closed net json describe before after r payload sound done =
    let q = run net json describe before r in
    let (reason, h) =
      closed-reason q.connection
        (settled-closed q (run-IsSettled net json describe before r sound) done) in
    let h' = run-KeepsReason net json describe after q reason h in
    (
      reason,
      h,
      h',
      close_reason-closed (run net json describe after q).connection reason h',
      send_packet_closed net payload (run net json describe after q).connection reason h',
    )
