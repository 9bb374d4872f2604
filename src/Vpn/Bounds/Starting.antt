-- ===== src/Vpn/Bounds/Starting.antt =====
-- The packets that a `VpnConnection` hands to the transport fit its packet MTU through its handshake.
use veil_python_stack.Prelude.{
  if◌then◌else◌, ℕ, ◌+◌, String, Option, none, some, List, [], ◌∷◌, arith, leb, if-Holds,
}
use veil_python_stack.Prelude.Dict.{Dict}
use veil_python_stack.Errors.{
  index_error, called_process_error, process_lookup_error, permission_error, Error, Result, ok, err,
  runtime_error, value_error, type_error, key_error, attribute_error, timeout_error,
  cancelled_error, eof_error, connection_error,
}
use veil_python_stack.Message.{Value, Json}
use veil_python_stack.Vpn.{Connection, Net, touch_activity, send_control}
use veil_python_stack.Vpn.Control.{decode_control, apply, apply_peer_metadata, hello, ready}
use veil_python_stack.Vpn.Start.{
  Reply, replied, gave_up, was_cancelled, Wait, Attempt, on_exception, finish, settle_attempt,
  second, await_ready, on_ready, start_initiator, respond_with, respond, take_hello, on_hello,
  reply_of, start_responder,
}
use veil_python_stack.Vpn.Bounds.{IsBounded, send_control-IsBounded}

module _ (net : Net) (json : Json) where
  apply-IsBounded :
      (type : String) (m : Dict String Value) (c : Connection)
      → IsBounded c
      → IsBounded (apply type json m c).1
  unfolding apply apply_peer_metadata
  apply-IsBounded type m c h = (ground (arith, h.0), ground (arith, h.1))

  on_exception-IsBounded : (e : Error) (c : Connection) → IsBounded c → IsBounded (on_exception e c)
  unfolding on_exception
  on_exception-IsBounded cancelled_error c h = h
  on_exception-IsBounded (runtime_error m) c h = h
  on_exception-IsBounded (value_error m) c h = h
  on_exception-IsBounded (type_error m) c h = h
  on_exception-IsBounded (key_error m) c h = h
  on_exception-IsBounded (attribute_error m) c h = h
  on_exception-IsBounded timeout_error c h = h
  on_exception-IsBounded eof_error c h = h
  on_exception-IsBounded connection_error c h = h
  on_exception-IsBounded (index_error m) c h = h
  on_exception-IsBounded called_process_error c h = h
  on_exception-IsBounded process_lookup_error c h = h
  on_exception-IsBounded permission_error c h = h

  finish-IsBounded :
      (now : ℕ) (r : Result (Unit {0}) × Connection) → IsBounded r.1 → IsBounded (finish now r).1
  unfolding touch_activity
  finish-IsBounded now (ok u, c) h = h
  finish-IsBounded now (err e, c) h = on_exception-IsBounded e c h

  -- If the handshake comes to its end, its connection is bounded.
  unfoldable pub EndsBounded : {A : Type 0} → Option (Result A × Connection) → Type 0
  EndsBounded none = Unit {0}
  EndsBounded (some (r, c)) = IsBounded c

  settle_attempt-EndsBounded :
      (deadline asked_at : ℕ) (reply : Reply)
      (again : Option (Result (Dict String Value) × Connection))
      (sending : Result (Unit {0}) × Connection)
      → IsBounded sending.1
      → EndsBounded again
      → EndsBounded (settle_attempt net json deadline asked_at reply again sending)
  unfolding EndsBounded
  settle_attempt-EndsBounded deadline asked_at reply again (err e, c) h next = h
  settle_attempt-EndsBounded deadline asked_at (replied raw) again (ok u, c) h next =
      if-Holds EndsBounded (leb deadline asked_at) (some (err timeout_error, c))
        (some (decode_control json raw, c)) h h
  settle_attempt-EndsBounded deadline asked_at (gave_up t) again (ok u, c) h next =
      if-Holds EndsBounded (leb deadline asked_at) (some (err timeout_error, c))
        (if leb deadline t then some (err timeout_error, c) else again) h
        (if-Holds EndsBounded (leb deadline t) (some (err timeout_error, c)) again h next)
  settle_attempt-EndsBounded deadline asked_at was_cancelled again (ok u, c) h next =
      if-Holds EndsBounded (leb deadline asked_at) (some (err timeout_error, c))
        (some (err cancelled_error, c)) h h

  await_ready-EndsBounded :
      (deadline : ℕ) (attempts : List Attempt) (m : Dict String Value) (c : Connection)
      → IsBounded c
      → EndsBounded (await_ready net json deadline attempts m c)
  unfolding await_ready EndsBounded
  await_ready-EndsBounded deadline [] m c h = tt
  await_ready-EndsBounded deadline (a ∷ attempts) m c h =
      let sending = send_control net json m c in
      let sent = send_control-IsBounded net json m c h in
      settle_attempt-EndsBounded deadline a.asked_at (reply_of a.wait (second net json sending))
        (await_ready net json deadline attempts m (second net json sending)) sending sent
        (await_ready-EndsBounded deadline attempts m (second net json sending) sent)

  on_ready-EndsBounded :
      (now : ℕ) (r : Option (Result (Dict String Value) × Connection))
      → EndsBounded r
      → EndsBounded (on_ready net json now r)
  unfolding EndsBounded
  on_ready-EndsBounded now none h = tt
  on_ready-EndsBounded now (some (ok m, c)) h =
      finish-IsBounded now (apply "vpn.ready" json m c) (apply-IsBounded "vpn.ready" m c h)
  on_ready-EndsBounded now (some (err e, c)) h = on_exception-IsBounded e c h

  pub start_initiator-EndsBounded :
      (began timeout now : ℕ) (attempts : List Attempt) (c : Connection)
      → IsBounded c
      → EndsBounded (start_initiator net json began timeout now attempts c)
  unfolding start_initiator EndsBounded
  start_initiator-EndsBounded began timeout now attempts c h =
      let waiting = record c { hello_message = some (hello c) } in
      if-Holds EndsBounded c.started (some (err (runtime_error "VpnConnection already started"), c))
        (on_ready net json now (await_ready net json (began + timeout) attempts (hello c) waiting))
        h
        (on_ready-EndsBounded now
          (await_ready net json (began + timeout) attempts (hello c) waiting)
          (await_ready-EndsBounded (began + timeout) attempts (hello c) waiting h))

  module _ (factory : Connection → Result (Dict String Value)) where
    respond_with-IsBounded :
        (d : Result (Dict String Value)) (c : Connection)
        → IsBounded c
        → IsBounded (respond_with net json factory d c).1
    respond_with-IsBounded (ok d) c h =
        send_control-IsBounded net json (ready d c) (record c { ready_message = some (ready d c) })
          h
    respond_with-IsBounded (err e) c h = h

    respond-IsBounded :
        (r : Result (Unit {0}) × Connection)
        → IsBounded r.1
        → IsBounded (respond net json factory r).1
    respond-IsBounded (ok u, c) h = respond_with-IsBounded (factory c) c h
    respond-IsBounded (err e, c) h = h

    take_hello-IsBounded :
        (m : Result (Dict String Value)) (c : Connection)
        → IsBounded c
        → IsBounded (take_hello net json factory m c).1
    take_hello-IsBounded (ok m) c h =
        respond-IsBounded (apply "vpn.hello" json m c) (apply-IsBounded "vpn.hello" m c h)
    take_hello-IsBounded (err e) c h = h

    on_hello-IsBounded :
        (r : Reply) (c : Connection) → IsBounded c → IsBounded (on_hello net json factory r c).1
    on_hello-IsBounded (replied raw) c h = take_hello-IsBounded (decode_control json raw) c h
    on_hello-IsBounded (gave_up t) c h = h
    on_hello-IsBounded was_cancelled c h = h

    pub start_responder-IsBounded :
        (now : ℕ) (wait : Wait) (c : Connection)
        → IsBounded c
        → IsBounded (start_responder net json factory now wait c).1
    unfolding start_responder
    start_responder-IsBounded now wait c h =
        let answered = on_hello net json factory (reply_of wait c) c in
        if-Holds (λ (r : Result (Unit {0}) × Connection). IsBounded r.1) c.started
          (err (runtime_error "VpnConnection already started"), c) (finish now answered) h
          (finish-IsBounded now answered (on_hello-IsBounded (reply_of wait c) c h))
