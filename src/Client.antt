-- ===== src/Client.antt =====
-- veil_core/client.py: the client's state and methods. A method returns its result and the new
-- state; `connect` is split at its `await`, and the callbacks of the node are methods too, since
-- its threads call them between any two steps of the event loop. That a thread and the event loop
-- change the client in the midst of each other's step is left out.
pub mod Trace
pub mod Connect
use veil_python_stack.Prelude.{
  ℕ, ◌+◌, ◌∷◌, ◌++◌, String, Bool, true, false, not, ◌&&◌, Option, none, some, List, [], nat_eq,
  ◌==◌, if◌then◌else◌,
}
use veil_python_stack.Prelude.Dict.{Dict, lookup, insert}
use veil_python_stack.Errors.{Error, Result, ok, err, runtime_error, attribute_error, timeout_error}
use veil_python_stack.Events.{
  Event, new_connection_event, data_event, disconnected_event, error_event, session_of,
}
use veil_python_stack.Mailbox.{
  Mailbox, Loop, absent, live, other, new_mailbox, call_soon, get_session_queue, push_event,
  push_session_event,
}
use veil_python_stack.Mailbox
use veil_python_stack.Node.{
  Node, NodeCall, node_start, node_stop, node_connect, node_send, node_disconnect,
}

-- An `asyncio.Future[NewConnectionEvent]`.
pub data Future : Type 0 where
  waiting : Future
  resolved : Event → Future
  failed : Error → Future
  dropped : Future

-- The callbacks that settle a future: `set_result` and `set_exception`.
pub data Settle : Type 0 where
  set_result : ℕ → Event → Settle
  set_exception : ℕ → Error → Settle

-- A future is named by a number; `pending_connect` holds the name.
pub record Client : Type 0 where
  pub host : String
  pub port : ℕ
  pub mail : Mailbox Settle
  pub backlog : List Event
  pub futures : Dict ℕ Future
  pub next_future : ℕ
  pub pending_connect : Option ℕ
  pub session_id : Option ℕ
  pub running : Bool
  pub has_extension : Bool
  pub calls : List NodeCall
  pub loop_errors : ℕ

unfoldable pub init : String → ℕ → Bool → Client
init host port has_extension = record {
  host = host;
  port = port;
  mail = new_mailbox;
  backlog = [];
  futures = [];
  next_future = 0;
  pending_connect = none;
  session_id = none;
  running = false;
  has_extension = has_extension;
  calls = [];
  loop_errors = 0;
}

abbrev is_waiting : Option Future → Bool
is_waiting (some waiting) = true
is_waiting (some (resolved e)) = false
is_waiting (some (failed e)) = false
is_waiting (some dropped) = false
is_waiting none = false

abbrev if_waiting : Dict ℕ Future → Option ℕ → Option ℕ
if_waiting futures none = none
if_waiting futures (some f) = if is_waiting (lookup f futures) then some f else none

-- `self._pending_connect is not None and not self._pending_connect.done()`
unfoldable pub connecting : Client → Option ℕ
unfolding lookup
connecting c = if_waiting c.futures c.pending_connect

abbrev pub no_extension : Error
no_extension = runtime_error "veil_core C++ extension (_veil_core_ext) is not compiled."

abbrev pub not_connected : Error
not_connected = runtime_error "Not connected — call connect() first."

-- `_require_ext`, and then the rest of a method.
abbrev pub require_ext {ℓ} : {A : Type ℓ} → Client → Result A × Client → Result A × Client
require_ext c rest = if c.has_extension then rest else (err no_extension, c)

abbrev log_call : NodeCall → Client → Client
log_call k c = record c { calls = c.calls ++ k ∷ [] }

abbrev answer : Option Error → Client → Result (Unit {0}) × Client
answer none c = (ok tt, c)
answer (some e) c = (err e, c)

-- Every call is made from a task of a running event loop.
unfoldable pub start : Node → Client → Result (Unit {0}) × Client
start node c = require_ext c (
    answer node.start_fails
      (log_call node_start (record c { mail = record c.mail { loop = live }; running = true })))

-- A future is settled once.
abbrev settle_future : ℕ → Future → Client → Client
settle_future f r c = record c { futures = insert f r c.futures }

abbrev fail_pending : Option ℕ → Error → Client → Client
fail_pending none e c = c
fail_pending (some f) e c = settle_future f (failed e) c

unfoldable pub stop : Client → Client
unfolding connecting insert
stop c =
    if c.running
    then (let c' = fail_pending (connecting c) (runtime_error "Client stopped") c in
        let c'' = record c' { running = false; session_id = none } in
        if c.has_extension then log_call node_stop c'' else c'')
    else c

abbrev without : ℕ → Option ℕ → Option ℕ
without f none = none
without f (some g) = if g == f then none else some g

-- `finally: if self._pending_connect is future: self._pending_connect = None`
abbrev clear_pending : ℕ → Client → Client
clear_pending f c = record c { pending_connect = without f c.pending_connect }

abbrev begin_connect : Node → Option ℕ → Client → Result ℕ × Client
begin_connect node (some f) c = (err (runtime_error "connect() already in progress"), c)
begin_connect node none c =
    let f = c.next_future in
    let c' = log_call (node_connect c.host c.port) (record c {
      futures = insert f waiting c.futures;
      next_future = f + 1;
      pending_connect = some f;
    }) in
    elim node.connect_fails [ none ↦ (ok f, c') | some e ↦ (err e, clear_pending f c') ]

-- `connect` up to `await future`: the name of the future that the task then waits on.
unfoldable pub connect : Node → Client → Result ℕ × Client
unfolding connecting insert
connect node c = require_ext c (begin_connect node (connecting c) c)

-- What wakes the task that awaits the future: the future is settled, or the 10 seconds are over.
pub data Wake : Type 0 where
  settled expired : Wake

abbrev finish_connect : ℕ → Option Future → Client → Option (Result Event × Client)
finish_connect f (some (resolved e)) c =
    some (ok e, record (clear_pending f c) { session_id = some (session_of e) })
finish_connect f (some (failed e)) c = some (err e, clear_pending f c)
finish_connect f (some dropped) c = some (err timeout_error, clear_pending f c)
finish_connect f (some waiting) c = none
finish_connect f none c = none

-- The timeout cancels the task, and with it the future unless that is done.
abbrev cancel_future : ℕ → Client → Client
cancel_future f c = if is_waiting (lookup f c.futures) then settle_future f dropped c else c

-- `connect` from `await future` on; `none` while the task still waits.
unfoldable pub resume_connect : Wake → ℕ → Client → Option (Result Event × Client)
unfolding insert lookup
resume_connect settled f c = finish_connect f (lookup f c.futures) c
resume_connect expired f c = some (err timeout_error, clear_pending f (cancel_future f c))

-- `session_id or self._session_id`: an explicit 0 counts as none.
abbrev chosen_session : Option ℕ → Option ℕ → Option ℕ
chosen_session none active = active
chosen_session (some s) active = if s == 0 then active else some s

abbrev send_to : Node → Option ℕ → List ℕ → ℕ → Client → Result Bool × Client
send_to node none bytes stream_id c = (err not_connected, c)
send_to node (some s) bytes stream_id c =
    (ok (node.accepts s bytes stream_id), log_call (node_send s bytes stream_id) c)

unfoldable pub send : Node → List ℕ → ℕ → Option ℕ → Client → Result Bool × Client
send node bytes stream_id session_id c =
    require_ext c (send_to node (chosen_session session_id c.session_id) bytes stream_id c)

abbrev forget : ℕ → Option ℕ → Option ℕ
forget s none = none
forget s (some active) = if s == active then none else some active

abbrev disconnect_from : Node → Option ℕ → Client → Result Bool × Client
disconnect_from node none c = (err not_connected, c)
disconnect_from node (some s) c =
    let c' = log_call (node_disconnect s) c in
    if node.drops s
    then (ok true, record c' { session_id = forget s c.session_id })
    else (ok false, c')

unfoldable pub disconnect : Node → Option ℕ → Client → Result Bool × Client
disconnect node session_id c =
    require_ext c (disconnect_from node (chosen_session session_id c.session_id) c)

abbrev with_mail : Mailbox Settle → Client → Client
with_mail m c = record c { mail = m }

abbrev has_loop : Loop → Bool
has_loop absent = false
has_loop live = true
has_loop Loop.idle = true

-- The `set_result` call of `_on_new_connection`. With no loop it raises, and no event is pushed.
abbrev announce : Option ℕ → Event → Client → Result (Unit {0}) × Client
announce none e c = (ok tt, with_mail (push_event e c.mail) c)
announce (some f) e c =
    if has_loop c.mail.loop
    then (ok tt, with_mail (push_event e (call_soon (other (set_result f e)) c.mail)) c)
    else (err (attribute_error "call_soon_threadsafe"), c)

-- `_on_new_connection`
unfoldable pub on_new_connection : ℕ → String → ℕ → Client → Result (Unit {0}) × Client
unfolding connecting
on_new_connection s remote_host remote_port c =
    announce (connecting c) (new_connection_event s remote_host remote_port)
      (with_mail (get_session_queue s c.mail).1 c)

-- `_on_data`
unfoldable pub on_data : ℕ → ℕ → List ℕ → Client → Client
on_data s stream_id bytes c =
    let e = data_event s stream_id bytes in
    with_mail (push_event e (push_session_event s e c.mail)) c

-- `_on_disconnected`
unfoldable pub on_disconnected : ℕ → String → Client → Client
on_disconnected s reason c =
    let e = disconnected_event s reason in
    record c {
      session_id = forget s c.session_id;
      mail = push_event e (push_session_event s e c.mail);
    }

abbrev report : Option ℕ → ℕ → String → Mailbox Settle → Mailbox Settle
report none s message m = m
report (some f) s message m =
    if s == 0 && has_loop m.loop
    then call_soon (other (set_exception f (runtime_error message))) m
    else m

-- `_on_error`
unfoldable pub on_error : ℕ → String → Client → Client
unfolding connecting
on_error s message c =
    let e = error_event s message in
    let m = report (connecting c) s message c.mail in
    with_mail (push_event e (if s == 0 then m else push_session_event s e m)) c

-- A `set_result` or `set_exception` on a future that is done raises in the event loop.
abbrev settle_if : Bool → ℕ → Future → Client → Client
settle_if true f r c = settle_future f r c
settle_if false f r c = record c { loop_errors = c.loop_errors + 1 }

unfoldable pub apply_settle : Option Settle → Client → Client
unfolding lookup insert
apply_settle none c = c
apply_settle (some (set_result f e)) c =
    settle_if (is_waiting (lookup f c.futures)) f (resolved e) c
apply_settle (some (set_exception f e)) c =
    settle_if (is_waiting (lookup f c.futures)) f (failed e) c

-- The event loop runs the next callback that was left with it.
unfoldable pub run_next : Client → Client
unfolding apply_settle
run_next c = let (m, k) = Mailbox.run_next c.mail in apply_settle k (with_mail m c)
