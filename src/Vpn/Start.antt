-- ===== src/Vpn/Start.antt =====
-- veil_core/vpn.py: `VpnConnection.start`, the handshake, with `_await_ready_with_retries`. What each
-- wait for a control message brings, and when, is given as a list of attempts; `none` says that the
-- list ends before the handshake does.
use veil_python_stack.Prelude.{
  ℕ, ◌+◌, true, String, Option, none, some, List, [], ◌∷◌, leb, nat_eq, ◌==◌, if◌then◌else◌,
}
use veil_python_stack.Prelude.Dict.{Dict}
use veil_python_stack.Errors.{
  index_error, called_process_error, process_lookup_error, permission_error, Error, Result, ok, err,
  runtime_error, value_error, type_error, key_error, attribute_error, timeout_error,
  cancelled_error, eof_error, connection_error,
}
use veil_python_stack.Message.{Value, Json}
use veil_python_stack.Vpn.{Connection, Net, drop_session, send_control, touch_activity}
use veil_python_stack.Vpn.Control.{hello, ready, decode_control, apply}

-- The end of `session.recv_event(timeout=..., predicate=...)` for a control message: the bytes of
-- one, the time at which TimeoutError is raised, or CancelledError.
pub data Reply : Type 0 where
  replied : List ℕ → Reply
  gave_up : ℕ → Reply
  was_cancelled : Reply

-- A wait for a control message: the data events that are pending or come before it ends, each with its
-- stream, and how it ends if none of them is taken
pub record Wait : Type 0 where
  pub arrived : List (ℕ × List ℕ)
  pub otherwise : Reply

-- The predicate of `_recv_control_message`: the first data event on the control stream is taken.
unfoldable pub recv_control_message : ℕ → List (ℕ × List ℕ) → Reply → Reply
recv_control_message control [] otherwise = otherwise
recv_control_message control ((i, raw) ∷ rest) otherwise =
    let later = recv_control_message control rest otherwise in
    if i == control then replied raw else later

abbrev pub reply_of : Wait → Connection → Reply
reply_of w c = recv_control_message c.control_stream_id w.arrived w.otherwise

-- One round of the retry loop: the time at which it looks at the clock, and its wait.
pub record Attempt : Type 0 where
  pub asked_at : ℕ
  pub wait : Wait

-- `except Exception: self._session.disconnect(); raise`, which lets CancelledError pass
unfoldable pub on_exception : Error → Connection → Connection
on_exception cancelled_error c = c
on_exception (runtime_error m) c = drop_session c
on_exception (value_error m) c = drop_session c
on_exception (type_error m) c = drop_session c
on_exception (key_error m) c = drop_session c
on_exception (attribute_error m) c = drop_session c
on_exception timeout_error c = drop_session c
on_exception eof_error c = drop_session c
on_exception connection_error c = drop_session c
on_exception (index_error m) c = drop_session c
on_exception called_process_error c = drop_session c
on_exception process_lookup_error c = drop_session c
on_exception permission_error c = drop_session c

abbrev failed : Error → Connection → Result (Unit {0}) × Connection
failed e c = (err e, on_exception e c)

-- The end of `start`, at time `now`
abbrev pub finish : ℕ → Result (Unit {0}) × Connection → Result (Unit {0}) × Connection
finish now (ok u, c) = (ok tt, touch_activity now (record c { started = true }))
finish now (err e, c) = failed e c

module _ (net : Net) (json : Json) where
  abbrev pub settle_attempt :
      (deadline asked_at : ℕ) (reply : Reply)
      → Option (Result (Dict String Value) × Connection)
      → Result (Unit {0}) × Connection
      → Option (Result (Dict String Value) × Connection)
  settle_attempt deadline asked_at reply again (err e, c) = some (err e, c)
  settle_attempt deadline asked_at (replied raw) again (ok u, c) =
      if leb deadline asked_at
      then some (err timeout_error, c)
      else some (decode_control json raw, c)
  settle_attempt deadline asked_at (gave_up t) again (ok u, c) =
      if leb deadline asked_at
      then some (err timeout_error, c)
      else if leb deadline t
      then some (err timeout_error, c)
      else again
  settle_attempt deadline asked_at was_cancelled again (ok u, c) =
      if leb deadline asked_at then some (err timeout_error, c) else some (err cancelled_error, c)

  abbrev pub second : Result (Unit {0}) × Connection → Connection
  second (r, c) = c

  abbrev round :
      (deadline : ℕ)
      → Attempt
      → (Connection → Option (Result (Dict String Value) × Connection))
      → Result (Unit {0}) × Connection
      → Option (Result (Dict String Value) × Connection)
  round deadline a again sending =
      settle_attempt deadline a.asked_at (reply_of a.wait (second sending)) (again (second sending))
        sending

  -- The loop of `_await_ready_with_retries`
  unfoldable pub await_ready :
      (deadline : ℕ)
      → List Attempt
      → Dict String Value
      → Connection
      → Option (Result (Dict String Value) × Connection)
  unfolding recv_control_message
  await_ready deadline [] message c = none
  await_ready deadline (a ∷ rest) message c =
      round deadline a (await_ready deadline rest message) (send_control net json message c)

  abbrev pub take_ready :
      ℕ → Result (Dict String Value) × Connection → Result (Unit {0}) × Connection
  take_ready now (ok message, c) = finish now (apply "vpn.ready" json message c)
  take_ready now (err e, c) = failed e c

  abbrev pub on_ready :
      ℕ → Option (Result (Dict String Value) × Connection) → Option (Result (Unit {0}) × Connection)
  on_ready now none = none
  on_ready now (some r) = some (take_ready now r)

  -- `start(initiator=True)`, begun at `began` and done at `now`
  unfoldable pub start_initiator :
      (began timeout now : ℕ) → List Attempt → Connection → Option (Result (Unit {0}) × Connection)
  start_initiator began timeout now attempts c =
      if c.started
      then some (err (runtime_error "VpnConnection already started"), c)
      else on_ready now (
          await_ready (began + timeout) attempts (hello c)
            (record c { hello_message = some (hello c) }))

  module _ (factory : Connection → Result (Dict String Value)) where
    abbrev pub send_ready : Dict String Value → Connection → Result (Unit {0}) × Connection
    send_ready message c = send_control net json message (record c { ready_message = some message })

    abbrev pub respond_with :
        Result (Dict String Value) → Connection → Result (Unit {0}) × Connection
    respond_with (ok dynamic) c = send_ready (ready dynamic c) c
    respond_with (err e) c = (err e, c)

    abbrev pub respond : Result (Unit {0}) × Connection → Result (Unit {0}) × Connection
    respond (ok u, c) = respond_with (factory c) c
    respond (err e, c) = (err e, c)

    abbrev pub take_hello : Result (Dict String Value) → Connection → Result (Unit {0}) × Connection
    take_hello (ok message) c = respond (apply "vpn.hello" json message c)
    take_hello (err e) c = (err e, c)

    abbrev pub on_hello : Reply → Connection → Result (Unit {0}) × Connection
    on_hello (replied raw) c = take_hello (decode_control json raw) c
    on_hello (gave_up t) c = (err timeout_error, c)
    on_hello was_cancelled c = (err cancelled_error, c)

    -- `start(initiator=False, ready_payload_factory=factory)`; a factory that is absent or gives
    -- None is one that gives no entries.
    unfoldable pub start_responder : (now : ℕ) → Wait → Connection → Result (Unit {0}) × Connection
    unfolding recv_control_message
    start_responder now wait c =
        if c.started
        then (err (runtime_error "VpnConnection already started"), c)
        else finish now (on_hello (reply_of wait c) c)
