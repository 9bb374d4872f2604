-- ===== src/Server.antt =====
-- veil_core/server.py: the server's state and methods, as for the client. `accept` reads a queue of
-- its own, which `_on_new_connection` fills.
pub mod Delivery
use veil_python_stack.Prelude.{
  ℕ, ◌∷◌, ◌++◌, String, Bool, true, false, Option, none, some, List, [], nat_eq, ◌==◌,
  if◌then◌else◌,
}
use veil_python_stack.Asyncio.{Turn, Await, got, queue_get, wait_for_get}
use veil_python_stack.Errors.{Error, Result, ok, err}
use veil_python_stack.Events.{
  Event, new_connection_event, data_event, disconnected_event, error_event, session_of,
}
use veil_python_stack.Mailbox.{
  Mailbox, live, is_live, other, new_mailbox, call_soon, get_session_queue, push_event,
  push_session_event,
}
use veil_python_stack.Mailbox
use veil_python_stack.Node.{Node, NodeCall, node_start, node_stop, node_send, node_disconnect}
use veil_python_stack.Client.{no_extension}

-- The callback `self._accept_queue.put_nowait`.
pub data Accept : Type 0 where
  put_accept : Event → Accept

pub record Server : Type 0 where
  pub host : String
  pub port : ℕ
  pub mail : Mailbox Accept
  pub accept_queue : List Event
  pub backlog : List Event
  pub running : Bool
  pub has_extension : Bool
  pub calls : List NodeCall

unfoldable pub init : String → ℕ → Bool → Server
init host port has_extension = record {
  host = host;
  port = port;
  mail = new_mailbox;
  accept_queue = [];
  backlog = [];
  running = false;
  has_extension = has_extension;
  calls = [];
}

abbrev pub require_ext {ℓ} : {A : Type ℓ} → Server → Result A × Server → Result A × Server
require_ext c rest = if c.has_extension then rest else (err no_extension, c)

abbrev log_call : NodeCall → Server → Server
log_call k c = record c { calls = c.calls ++ k ∷ [] }

abbrev answer : Option Error → Server → Result (Unit {0}) × Server
answer none c = (ok tt, c)
answer (some e) c = (err e, c)

unfoldable pub start : Node → Server → Result (Unit {0}) × Server
start node c = require_ext c (
    answer node.start_fails
      (log_call node_start (record c { mail = record c.mail { loop = live }; running = true })))

unfoldable pub stop : Server → Server
stop c =
    if c.running
    then (let c' = record c { running = false } in
        if c.has_extension then log_call node_stop c' else c')
    else c

unfoldable pub send : Node → ℕ → List ℕ → ℕ → Server → Result Bool × Server
send node s bytes stream_id c =
    require_ext c (ok (node.accepts s bytes stream_id), log_call (node_send s bytes stream_id) c)

unfoldable pub disconnect : Node → ℕ → Server → Result Bool × Server
disconnect node s c = require_ext c (ok (node.drops s), log_call (node_disconnect s) c)

-- The wait of `accept`; `timed` says that `timeout is not None`. What is left of the queue and of
-- the schedule comes back too.
unfoldable pub accept : Bool → List (Turn Event) → Server → Await Event × Server × List (Turn Event)
accept timed turns c =
    let (r, q, ts) =
      if timed then wait_for_get c.accept_queue turns else queue_get c.accept_queue turns in
    (r, record c { accept_queue = q }, ts)

abbrev with_mail : Mailbox Accept → Server → Server
with_mail m c = record c { mail = m }

-- `_push_accept_event`
unfoldable pub push_accept_event : Event → Mailbox Accept → Mailbox Accept
push_accept_event e m = if is_live m.loop then call_soon (other (put_accept e)) m else m

-- `_on_new_connection`
unfoldable pub on_new_connection : ℕ → String → ℕ → Server → Server
on_new_connection s remote_host remote_port c =
    let e = new_connection_event s remote_host remote_port in
    with_mail (push_event e (push_accept_event e (get_session_queue s c.mail).1)) c

-- `_on_data`
unfoldable pub on_data : ℕ → ℕ → List ℕ → Server → Server
on_data s stream_id bytes c =
    let e = data_event s stream_id bytes in
    with_mail (push_event e (push_session_event s e c.mail)) c

-- `_on_disconnected`
unfoldable pub on_disconnected : ℕ → String → Server → Server
on_disconnected s reason c =
    let e = disconnected_event s reason in
    with_mail (push_event e (push_session_event s e c.mail)) c

-- `_on_error`
unfoldable pub on_error : ℕ → String → Server → Server
on_error s message c =
    let e = error_event s message in
    with_mail (push_event e (if s == 0 then c.mail else push_session_event s e c.mail)) c

abbrev apply_accept : Option Accept → Server → Server
apply_accept none c = c
apply_accept (some (put_accept e)) c = record c { accept_queue = c.accept_queue ++ e ∷ [] }

-- The event loop runs the next callback that was left with it.
unfoldable pub run_next : Server → Server
run_next c = let (m, k) = Mailbox.run_next c.mail in apply_accept k (with_mail m c)
