-- ===== src/Vpn/Mtu.antt =====
-- What a `VpnConnection` may go through, from its constructor on, and what it hands to the transport.
use veil_python_stack.Prelude.{
  ℕ, ◌≡◌, String, true, false, List, [], ◌∷◌, arith, nat_eq, Option-cases, inl, inr, Option, none,
  some,
}
use veil_python_stack.Prelude.Dict.{Dict}
use veil_python_stack.Errors.{Error, Result, ok, err}
use veil_python_stack.Events.{new_connection_event, data_event, disconnected_event, error_event}
use veil_python_stack.Message.{Value, Json, text}
use veil_python_stack.Vpn.{
  Connection, Net, Settings, new_connection, mark_closed, cancel_closed, touch_activity,
  send_packet, close,
}
use veil_python_stack.Vpn.Control.{handle_runtime_control, decode_control}
use veil_python_stack.Vpn.Start.{Wait, Attempt, start_initiator, start_responder}
use veil_python_stack.Vpn.Runtime.{
  Runtime, Input, delivered, tick, cancel_run, cancel_keepalive, wait_closed_timeout, handle_event,
  on_control, keepalive, step,
}
use veil_python_stack.Vpn.Bounds.{
  IsBounded, new_connection-IsBounded, send_control-IsBounded, send_packet-IsBounded,
  close-IsBounded,
}
use veil_python_stack.Vpn.Bounds.Starting.{
  EndsBounded, start_initiator-EndsBounded, start_responder-IsBounded,
}

module _ (net : Net) (json : Json) (describe : Error → String) where
  runtime_control-IsBounded :
      (m : Dict String Value) (c : Connection)
      → IsBounded c
      → IsBounded (handle_runtime_control net json m c).1
  unfolding handle_runtime_control mark_closed
  runtime_control-IsBounded m c h =
      let (a, b) = send_control-IsBounded net json (("type", text "vpn.pong") ∷ []) c h in
      elim (Option-cases c.ready_message) [
        | inl n ↦ (ground (arith, n, h.0, a), ground (arith, n, h.1, b))
        | inr (ready, n) ↦
            let (a', b') = send_control-IsBounded net json ready c h in
            (ground (arith, n, h.0, a, a'), ground (arith, n, h.1, b, b'))
      ]

  on_control-IsBounded :
      (m : Result (Dict String Value)) (c : Connection)
      → IsBounded c
      → IsBounded (on_control net json describe m c).1
  on_control-IsBounded (ok m) c h =
      let (a, b) = runtime_control-IsBounded m c h in (ground (arith, a), ground (arith, b))
  on_control-IsBounded (err e) c h = h

  step-IsBounded :
      (i : Input) (r : Runtime)
      → IsBounded r.connection
      → IsBounded (step net json describe i r).connection
  unfolding step keepalive handle_event touch_activity mark_closed cancel_closed
  step-IsBounded (delivered now (data_event s i d)) r h =
      let (a, b) =
        on_control-IsBounded (decode_control json d) (touch_activity now r.connection) h in
      (ground (arith, h.0, a), ground (arith, h.1, b))
  step-IsBounded (delivered now (disconnected_event s x)) r h =
      (ground (arith, h.0), ground (arith, h.1))
  step-IsBounded (delivered now (error_event s m)) r h = (ground (arith, h.0), ground (arith, h.1))
  step-IsBounded (delivered now (new_connection_event s a p)) r h =
      (ground (arith, h.0), ground (arith, h.1))
  step-IsBounded (tick now) r h =
      let (a, b) =
        send_control-IsBounded net json (("type", text "vpn.ping") ∷ []) r.connection h in
      (ground (arith, h.0, a), ground (arith, h.1, b))
  step-IsBounded cancel_run r h = (ground (arith, h.0), ground (arith, h.1))
  step-IsBounded cancel_keepalive r h = h
  step-IsBounded wait_closed_timeout r h = h

-- With both of its tasks
abbrev pub running : Connection → Runtime
running c = record { connection = c; event_task = true; keepalive_task = true }

-- As the constructor leaves it, without tasks
abbrev pub idle : Connection → Runtime
idle c = record { connection = c; event_task = false; keepalive_task = false }

-- What may happen to a connection: an input to its tasks, a whole call of `start` on either side, or a
-- call of another method
pub data Action : Type 0 where
  input : Input → Action
  call_send_packet : List ℕ → Action
  call_close : String → Action
  call_start_initiator : (began timeout now : ℕ) → List Attempt → Action
  call_start_responder : (Connection → Result (Dict String Value)) → ℕ → Wait → Action

module _ (net : Net) (json : Json) (describe : Error → String) where
  -- Only a `start` that succeeds creates the two tasks.
  abbrev pub launched : Runtime → Result (Unit {0}) × Connection → Runtime
  launched r (ok u, c) = running c
  launched r (err e, c) = record r { connection = c }

  abbrev pub launched_if : Runtime → Option (Result (Unit {0}) × Connection) → Runtime
  launched_if r none = r
  launched_if r (some x) = launched r x

  unfoldable pub act : Action → Runtime → Runtime
  act (input i) r = step net json describe i r
  act (call_send_packet payload) r = record r {
    connection = (send_packet net payload r.connection).1;
  }
  act (call_close why) r = record r { connection = (close net json why r.connection).1 }
  act (call_start_initiator began timeout now attempts) r =
      launched_if r (start_initiator net json began timeout now attempts r.connection)
  act (call_start_responder factory now wait) r =
      launched r (start_responder net json factory now wait r.connection)

  unfoldable pub act_all : List Action → Runtime → Runtime
  act_all [] r = r
  act_all (a ∷ actions) r = act_all actions (act a r)

  launched-IsBounded :
      (r : Runtime) (x : Result (Unit {0}) × Connection)
      → IsBounded x.1
      → IsBounded (launched r x).connection
  launched-IsBounded r (ok u, c) h = h
  launched-IsBounded r (err e, c) h = h

  launched_if-IsBounded :
      (r : Runtime) (x : Option (Result (Unit {0}) × Connection))
      → IsBounded r.connection
      → EndsBounded net json x
      → IsBounded (launched_if r x).connection
  unfolding EndsBounded
  launched_if-IsBounded r none h ends = h
  launched_if-IsBounded r (some x) h ends = launched-IsBounded r x ends

  act_all-IsBounded :
      (actions : List Action) (r : Runtime)
      → IsBounded r.connection
      → IsBounded (act_all actions r).connection
  unfolding act act_all
  act_all-IsBounded [] r h = h
  act_all-IsBounded (input i ∷ actions) r h =
      act_all-IsBounded actions (step net json describe i r)
        (step-IsBounded net json describe i r h)
  act_all-IsBounded (call_send_packet payload ∷ actions) r h =
      act_all-IsBounded actions (act (call_send_packet payload) r)
        (send_packet-IsBounded net json payload r.connection h)
  act_all-IsBounded (call_close why ∷ actions) r h =
      act_all-IsBounded actions (act (call_close why) r)
        (close-IsBounded net json why r.connection h)
  act_all-IsBounded (call_start_initiator began timeout now attempts ∷ actions) r h =
      act_all-IsBounded actions (act (call_start_initiator began timeout now attempts) r) (
        launched_if-IsBounded r (start_initiator net json began timeout now attempts r.connection) h
          (start_initiator-EndsBounded net json began timeout now attempts r.connection h))
  act_all-IsBounded (call_start_responder factory now wait ∷ actions) r h =
      act_all-IsBounded actions (act (call_start_responder factory now wait) r) (
        launched-IsBounded r (start_responder net json factory now wait r.connection)
          (start_responder-IsBounded net json factory now wait r.connection h))

-- Of a connection that the constructor made, whatever calls of `start` on either side, messages,
-- errors, timers and calls follow one another, so whatever MTU the peer announces: what the transport
-- took on the packet stream is at most `packet_mtu` bytes each, and the control stream is another
-- stream than the packet stream.
pub sent_packets_fit :
    (net : Net) (json : Json) (describe : Error → String) (now s : ℕ) (o : Settings)
    {c : Connection}
    → new_connection now s o ≡ ok c
    → (actions : List Action) → IsBounded (act_all net json describe actions (idle c)).connection
sent_packets_fit net json describe now s o {c} made actions =
    act_all-IsBounded net json describe actions (idle c) (new_connection-IsBounded now s o made)
