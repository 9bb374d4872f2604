-- ===== src/Session.antt =====
-- veil_core/session.py: `Session`, which works for one session of its owner, a `Client` or a
-- `Server`. Both have `send`, `disconnect` and `session_queue`, so the branches for owners without
-- them are not reached.
pub mod Filter
pub mod Facade
use veil_python_stack.Prelude.{
  ℕ, String, Bool, true, false, ◌&&◌, Option, none, some, List, nat_eq, ◌==◌, if◌then◌else◌,
  or_default,
}
use veil_python_stack.Asyncio.{Turn}
use veil_python_stack.Errors.{Error, Result, ok, err, type_error}
use veil_python_stack.Events.{
  Event, new_connection_event, data_event, disconnected_event, error_event, session_of,
}
use veil_python_stack.EventBuffer
use veil_python_stack.Message.{Value, Json, Message, message_from_event}
use veil_python_stack.Node.{Node}
use veil_python_stack.Client
use veil_python_stack.Server

-- `Session` with its `SessionInfo`; `backlog` is the one of its `EventBuffer`.
pub record Session : Type 0 where
  pub session_id : ℕ
  pub remote_host : String
  pub remote_port : ℕ
  pub default_stream_id : ℕ
  pub backlog : List Event

pub data Owner : Type 0 where
  client_owner : Client.Client → Owner
  server_owner : Server.Server → Owner

abbrev of_client : Result Bool × Client.Client → Result Bool × Owner
of_client (r, c) = (r, client_owner c)

abbrev of_server : Result Bool × Server.Server → Result Bool × Owner
of_server (r, c) = (r, server_owner c)

-- `owner.send(sid, data, stream_id=...)`: for a `Client`, whose `send` takes one positional
-- argument, this raises TypeError before the body runs.
abbrev send_positional : Node → ℕ → List ℕ → ℕ → Owner → Result Bool × Owner
send_positional node s bytes i (client_owner c) =
    (err (type_error "send() takes 2 positional arguments"), client_owner c)
send_positional node s bytes i (server_owner c) = of_server (Server.send node s bytes i c)

-- `owner.send(data, session_id=sid, stream_id=...)`: for a `Server`, TypeError
abbrev send_keyword : Node → ℕ → List ℕ → ℕ → Owner → Result Bool × Owner
send_keyword node s bytes i (client_owner c) = of_client (Client.send node bytes i (some s) c)
send_keyword node s bytes i (server_owner c) =
    (err (type_error "send() missing a required argument"), server_owner c)

abbrev on_type_error : (Owner → Result Bool × Owner) → Result Bool × Owner → Result Bool × Owner
on_type_error retry (err (type_error m), o) = retry o
on_type_error retry (ok b, o) = (ok b, o)
on_type_error retry (err e, o) = (err e, o)

unfoldable pub send : Node → List ℕ → Option ℕ → Session → Owner → Result Bool × Owner
send node bytes stream_id s owner =
    let i = or_default stream_id s.default_stream_id in
    on_type_error (send_keyword node s.session_id bytes i)
      (send_positional node s.session_id bytes i owner)

-- `send_json`
unfoldable pub send_json : Node → Json → Value → Option ℕ → Session → Owner → Result Bool × Owner
unfolding send
send_json node json body stream_id s owner = send node (json.encode body) stream_id s owner

unfoldable pub disconnect : Node → Session → Owner → Result Bool × Owner
disconnect node s (client_owner c) = of_client (Client.disconnect node (some s.session_id) c)
disconnect node s (server_owner c) = of_server (Server.disconnect node s.session_id c)

-- What the session reads: its own backlog, and the queue that `owner.session_queue` gives.
abbrev pub channel : Session → List Event → List (Turn Event) → EventBuffer.Channel
channel s queue turns = record { backlog = s.backlog; queue = queue; turns = turns }

unfoldable pub recv :
    Bool
    → Option ℕ
    → Session
    → List Event
    → List (Turn Event)
    → Option (EventBuffer.Received × EventBuffer.Channel)
recv timed stream_id s queue turns =
    EventBuffer.recv_data timed (some s.session_id) stream_id none (channel s queue turns)

-- `queue_matcher`
abbrev pub queue_matcher : Session → Option (Event → Bool) → Event → Bool
queue_matcher s predicate e =
    if session_of e == s.session_id then EventBuffer.passes predicate e else false

unfoldable pub recv_event :
    Bool
    → Option (Event → Bool)
    → Session
    → List Event
    → List (Turn Event)
    → Option (EventBuffer.Received × EventBuffer.Channel)
unfolding session_of
recv_event timed predicate s queue turns =
    EventBuffer.recv_event timed (queue_matcher s predicate) (channel s queue turns)

-- `message_from_event(event)` on what `recv` returned; only data events are returned.
abbrev pub as_message : Json → Event → Result Message
as_message json (data_event s i payload) = message_from_event json s i payload
as_message json (new_connection_event s h p) = err (type_error "not a data event")
as_message json (disconnected_event s r) = err (type_error "not a data event")
as_message json (error_event s m) = err (type_error "not a data event")
