-- ===== src/Session/Facade.antt =====
-- The readers of `Client` and `Server` (veil_core/client.py, veil_core/server.py) over their main
-- queue: `next_event`, `recv`, `recv_event`, a round of `events`; and the sessions that they hand
-- out.
use veil_python_stack.Prelude.{
  ℕ, Bool, true, false, ◌||◌, Option, none, some, List, [], ◌∷◌, if◌then◌else◌,
}
use veil_python_stack.Asyncio.{Turn, Await, got, expired, cancelled, blocked}
use veil_python_stack.Errors.{Result, ok, err}
use veil_python_stack.Events.{Event, new_connection_event, session_of}
use veil_python_stack.EventBuffer
use veil_python_stack.EventBuffer.{Channel, Received, passes, has_pending}
use veil_python_stack.Client
use veil_python_stack.Server
use veil_python_stack.Session.{Session}

-- The session of a new connection
abbrev session_of_peer : ℕ → Event → Session
session_of_peer default_stream_id (new_connection_event s h p) = record {
  session_id = s;
  remote_host = h;
  remote_port = p;
  default_stream_id = default_stream_id;
  backlog = [];
}
session_of_peer default_stream_id e = record {
  session_id = session_of e;
  remote_host = "";
  remote_port = 0;
  default_stream_id = default_stream_id;
  backlog = [];
}

-- What `connect_session` makes of the event of `connect`, and `accept` of its event
unfoldable pub connected_session : Event → Session
unfolding session_of
connected_session e = session_of_peer 1 e

unfoldable pub accepted_session : Event → Session
unfolding session_of
accepted_session e = session_of_peer 0 e

abbrev session_with : Option ℕ → Client.Client → Result Session × Client.Client
session_with none c = (err Client.not_connected, c)
session_with (some s) c = (
  ok (record {
    session_id = s;
    remote_host = c.host;
    remote_port = c.port;
    default_stream_id = 1;
    backlog = [];
  }),
  c,
)

-- `Client.session`
unfoldable pub session : Client.Client → Result Session × Client.Client
session c = Client.require_ext c (session_with c.session_id c)

abbrev client_channel : List (Turn Event) → Client.Client → Channel
client_channel turns c = record { backlog = c.backlog; queue = c.mail.queue; turns = turns }

abbrev client_with : Channel → Client.Client → Client.Client
client_with ch c = record c { backlog = ch.backlog; mail = record c.mail { queue = ch.queue } }

abbrev server_channel : List (Turn Event) → Server.Server → Channel
server_channel turns c = record { backlog = c.backlog; queue = c.mail.queue; turns = turns }

abbrev server_with : Channel → Server.Server → Server.Server
server_with ch c = record c { backlog = ch.backlog; mail = record c.mail { queue = ch.queue } }

-- `next_event`; what is left of the schedule comes back too.
unfoldable pub client_next_event :
    Bool → List (Turn Event) → Client.Client → Await Event × Client.Client × List (Turn Event)
unfolding EventBuffer.next_event
client_next_event timed turns c =
    let (r, ch) = EventBuffer.next_event timed (client_channel turns c) in
    (r, client_with ch c, ch.turns)

unfoldable pub server_next_event :
    Bool → List (Turn Event) → Server.Server → Await Event × Server.Server × List (Turn Event)
unfolding EventBuffer.next_event
server_next_event timed turns c =
    let (r, ch) = EventBuffer.next_event timed (server_channel turns c) in
    (r, server_with ch c, ch.turns)

abbrev client_ends : Client.Client → Option (Received × Channel) → Option (Received × Client.Client)
client_ends c none = none
client_ends c (some (r, ch)) = some (r, client_with ch c)

abbrev server_ends : Server.Server → Option (Received × Channel) → Option (Received × Server.Server)
server_ends c none = none
server_ends c (some (r, ch)) = some (r, server_with ch c)

-- `recv`
unfoldable pub client_recv :
    Bool
    → Option ℕ
    → Option ℕ
    → List (Turn Event)
    → Client.Client
    → Option (Received × Client.Client)
client_recv timed stream_id session_id turns c =
    client_ends c (EventBuffer.recv_data timed session_id stream_id none (client_channel turns c))

unfoldable pub server_recv :
    Bool
    → Option ℕ
    → Option ℕ
    → List (Turn Event)
    → Server.Server
    → Option (Received × Server.Server)
server_recv timed stream_id session_id turns c =
    server_ends c (EventBuffer.recv_data timed session_id stream_id none (server_channel turns c))

-- `recv_event`: without a predicate every event matches.
unfoldable pub client_recv_event :
    Bool
    → Option (Event → Bool)
    → List (Turn Event)
    → Client.Client
    → Option (Received × Client.Client)
client_recv_event timed predicate turns c =
    client_ends c (EventBuffer.recv_event timed (passes predicate) (client_channel turns c))

unfoldable pub server_recv_event :
    Bool
    → Option (Event → Bool)
    → List (Turn Event)
    → Server.Server
    → Option (Received × Server.Server)
server_recv_event timed predicate turns c =
    server_ends c (EventBuffer.recv_event timed (passes predicate) (server_channel turns c))

-- A round of the generator `events`
pub data Generated : Type 0 where
  yields : Event → Generated
  goes_on ends was_cancelled waits : Generated

abbrev queued : List Event → Bool
queued [] = false
queued (e ∷ es) = true

abbrev generated : Bool → Await Event → Generated
generated more (got e) = yields e
generated more expired = if more then goes_on else ends
generated more cancelled = was_cancelled
generated more blocked = waits

-- Whether the generator has something to wait for
abbrev client_more : Client.Client → Bool
client_more c = c.running || (has_pending (client_channel [] c) || queued c.mail.queue)

abbrev server_more : Server.Server → Bool
server_more c = c.running || (has_pending (server_channel [] c) || queued c.mail.queue)

unfoldable pub client_events : List (Turn Event) → Client.Client → Generated × Client.Client
unfolding client_next_event has_pending
client_events turns c =
    let (r, c', ts) = client_next_event true turns c in
    if client_more c then (generated (client_more c') r, c') else (ends, c)

unfoldable pub server_events : List (Turn Event) → Server.Server → Generated × Server.Server
unfolding server_next_event has_pending
server_events turns c =
    let (r, c', ts) = server_next_event true turns c in
    if server_more c then (generated (server_more c') r, c') else (ends, c)
