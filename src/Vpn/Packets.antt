-- ===== src/Vpn/Packets.antt =====
-- What the tasks of a `VpnConnection` do with packets, and what it sends.
use veil_python_stack.Prelude.{
  ℕ, ◌≡◌, refl, sym, ◌∙◌, String, true, List, [], ◌∷◌, ◌++◌, arith, nat_eq, ◌==◌, if◌then◌else◌,
  append_assoc, append-nil,
}
use veil_python_stack.Prelude.Dict.{Dict}
use veil_python_stack.Errors.{Error, Result, ok, err}
use veil_python_stack.Events.{new_connection_event, data_event, disconnected_event, error_event}
use veil_python_stack.Message.{Value, Json, text}
use veil_python_stack.Vpn.{
  Connection, Net, mark_closed, cancel_closed, touch_activity, transmit, send_control,
}
use veil_python_stack.Vpn.Control.{handle_runtime_control, decode_control}
use veil_python_stack.Vpn.Runtime.{
  Runtime, Input, delivered, tick, cancel_run, cancel_keepalive, wait_closed_timeout, handle_event,
  on_control, keepalive, step, run,
}

-- The packet that an input brings on the packet stream
unfoldable pub packet_of : ℕ → Input → List (ℕ × List ℕ)
packet_of stream (delivered now (data_event s i payload)) =
    if i == stream then (s, payload) ∷ [] else []
packet_of stream (delivered now (disconnected_event s r)) = []
packet_of stream (delivered now (error_event s m)) = []
packet_of stream (delivered now (new_connection_event s h p)) = []
packet_of stream (tick now) = []
packet_of stream cancel_run = []
packet_of stream cancel_keepalive = []
packet_of stream wait_closed_timeout = []

unfoldable pub packets_of : ℕ → List Input → List (ℕ × List ℕ)
packets_of stream [] = []
packets_of stream (i ∷ is) = packet_of stream i ++ packets_of stream is

-- What control messages leave alone
abbrev Keeps : Connection → Connection → Type 0
Keeps c c' = (c'.packet_queue ≡ c.packet_queue) × (c'.packet_stream_id ≡ c.packet_stream_id)

-- What an input does to the packets of a connection whose `_run` goes on
abbrev Receives : List (ℕ × List ℕ) → Runtime → Runtime → Type 0
Receives new r r' =
    r'.event_task ≡ true
    → (r.event_task ≡ true)
      × (r'.connection.packet_queue ≡ r.connection.packet_queue ++ new)
      × (r'.connection.packet_stream_id ≡ r.connection.packet_stream_id)

module _ (net : Net) (json : Json) (describe : Error → String) where
  send_control-Keeps :
      (m : Dict String Value) (c : Connection) → Keeps c (send_control net json m c).1
  unfolding send_control transmit
  send_control-Keeps m c = (ground arith, ground arith)

  runtime_control-Keeps :
      (m : Dict String Value) (c : Connection) → Keeps c (handle_runtime_control net json m c).1
  unfolding handle_runtime_control send_control transmit mark_closed
  runtime_control-Keeps m c = (ground arith, ground arith)

  on_control-Keeps :
      (m : Result (Dict String Value)) (c : Connection)
      → Keeps c (on_control net json describe m c).1
  on_control-Keeps (ok m) c =
      let (p, q) = runtime_control-Keeps m c in (ground (arith, p), ground (arith, q))
  on_control-Keeps (err e) c = (refl, refl)

  step-Receives :
      (i : Input) (r : Runtime)
      → Receives (packet_of r.connection.packet_stream_id i) r (step net json describe i r)
  unfolding step keepalive handle_event touch_activity mark_closed cancel_closed packet_of
  step-Receives (delivered now (data_event s i d)) r h =
      let (p, q) = on_control-Keeps (decode_control json d) (touch_activity now r.connection) in
      (
        ground (arith, h),
        ground (arith, h, p, append-nil r.connection.packet_queue),
        ground (arith, h, q),
      )
  step-Receives (delivered now (disconnected_event s x)) r h =
      (ground (arith, h), ground (arith, h), ground (arith, h))
  step-Receives (delivered now (error_event s m)) r h = (
    ground (arith, h),
    ground (arith, h, append-nil r.connection.packet_queue),
    ground (arith, h),
  )
  step-Receives (delivered now (new_connection_event s a p)) r h = (
    ground (arith, h),
    ground (arith, h, append-nil r.connection.packet_queue),
    ground (arith, h),
  )
  step-Receives (tick now) r h =
      let (p, q) = send_control-Keeps (("type", text "vpn.ping") ∷ []) r.connection in
      (
        ground (arith, h),
        ground (arith, h, p, append-nil r.connection.packet_queue),
        ground (arith, h, q),
      )
  step-Receives cancel_run r h = (ground (arith, h), ground (arith, h), ground (arith, h))
  step-Receives cancel_keepalive r h = (h, sym (append-nil r.connection.packet_queue), refl)
  step-Receives wait_closed_timeout r h = (h, sym (append-nil r.connection.packet_queue), refl)

  run-Receives :
      (is : List Input) (r : Runtime)
      → Receives (packets_of r.connection.packet_stream_id is) r (run net json describe is r)
  unfolding run packets_of
  run-Receives [] r h = (h, sym (append-nil r.connection.packet_queue), refl)
  run-Receives (i ∷ is) r h =
      let r' = step net json describe i r in
      let (live, queue, stream) = run-Receives is r' h in
      let (live', queue', stream') = step-Receives i r live in
      (live', rw (queue, queue', stream', append_assoc) refl, stream ∙ stream')

  -- As long as the loop of `_run` goes on, the packet queue has gained exactly the payloads that
  -- came on the packet stream, in their order, each with its session, and nothing from any other
  -- stream, whatever the control messages, errors and keepalive rounds between them.
  pub run-packet_queue :
      (is : List Input) (r : Runtime)
      → (run net json describe is r).event_task ≡ true
      → (run net json describe is r).connection.packet_queue
        ≡ r.connection.packet_queue ++ packets_of r.connection.packet_stream_id is
  run-packet_queue is r h = (run-Receives is r h).1
