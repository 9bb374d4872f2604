-- ===== src/Examples/Transport.antt =====
-- The theorems on the event buffer, the client, the server and the session, at concrete inputs.
use veil_python_stack.Prelude.{
  ◌≡◌, refl, Bool, true, false, none, some, List, [], ◌∷◌, ◌++◌, nat_eq,
}
use veil_python_stack.Prelude.Dict.{lookup}
use veil_python_stack.Asyncio.{proceed, expire}
use veil_python_stack.Errors.{ok}
use veil_python_stack.Events.{Event, new_connection_event, data_event}
use veil_python_stack.EventBuffer.Wanted.{IsWanted, recv_data-Ends}
use veil_python_stack.EventBuffer.{Channel, pending, recv_event, recv_data, matches_data, returned}
use veil_python_stack.EventBuffer.Select.{Ends, recv_event-Ends, recv_event_from_backlog}
use veil_python_stack.Mailbox.{live}
use veil_python_stack.Mailbox.Delivery.{delivered, delivered_to}
use veil_python_stack.Node.{Node}
use veil_python_stack.Client
use veil_python_stack.Client.{Client, waiting, resolved, settled, resume_connect, on_disconnected}
use veil_python_stack.Client.Trace
use veil_python_stack.Client.Connect.{IsConnecting, established, connect_established, connect_stale}
use veil_python_stack.Server
use veil_python_stack.Server.Delivery
use veil_python_stack.Session.{Session, client_owner, send}
use veil_python_stack.Session.Filter.{AsksOwner, send-AsksOwner}

abbrev from_two : Event → Bool
from_two (data_event s i d) = true
from_two (new_connection_event s h p) = false
from_two _ = false

abbrev hello_data : Event
hello_data = data_event 7 2 (1 ∷ 2 ∷ [])

abbrev peer : Event
peer = new_connection_event 7 "10.0.0.9" 4433

abbrev channel : Channel
channel = record { backlog = peer ∷ []; queue = []; turns = proceed (hello_data ∷ []) ∷ [] }

recv_event_example : Ends from_two (pending channel) (recv_event true from_two channel)
recv_event_example = recv_event-Ends true from_two channel

recv_data_example :
    Ends
      (matches_data (some 7) (some 2) none)
      (pending channel)
      (recv_data true (some 7) (some 2) none channel)
    × ((e : Event)
        → matches_data (some 7) (some 2) none e ≡ true
        → IsWanted (some 7) (some 2) none e)
    × ((e : Event)
        → IsWanted (some 7) (some 2) none e
        → matches_data (some 7) (some 2) none e ≡ true)
recv_data_example = recv_data-Ends true (some 7) (some 2) none channel

backlog_example :
    recv_event true from_two
      (record { backlog = peer ∷ hello_data ∷ []; queue = []; turns = expire [] ∷ [] })
    ≡ some (returned hello_data, record { backlog = peer ∷ []; queue = []; turns = expire [] ∷ [] })
backlog_example =
    recv_event_from_backlog true from_two (peer ∷ []) [] hello_data [] (expire [] ∷ []) (refl, tt)
      refl

abbrev fresh_client : Client
fresh_client = record {
  host = "10.0.0.1";
  port = 4433;
  mail = record { loop = live; queue = []; session_queues = []; ready = [] };
  backlog = [];
  futures = (0, waiting) ∷ [];
  next_future = 1;
  pending_connect = some 0;
  session_id = none;
  running = true;
  has_extension = true;
  calls = [];
  loop_errors = 0;
}

abbrev node : Node
node = record {
  start_fails = none;
  connect_fails = none;
  accepts = λ s d i. true;
  drops = λ s. true;
}

abbrev inputs : List Client.Trace.Input
inputs =
    Client.Trace.Input.new_connection 7 "10.0.0.9" 4433
    ∷ Client.Trace.Input.data_in 7 2 (1 ∷ [])
    ∷ Client.Trace.Input.turn
    ∷ Client.Trace.Input.disconnected 7 "bye"
    ∷ []

delivered-run_example :
    delivered (Client.Trace.run fresh_client inputs).mail
    ≡ delivered fresh_client.mail ++ Client.Trace.all_reported inputs
delivered-run_example = Client.Trace.delivered-run fresh_client inputs refl

delivered_to-run_example :
    delivered_to 7 (Client.Trace.run fresh_client inputs).mail
    ≡ delivered_to 7 fresh_client.mail ++ Client.Trace.all_reported_to 7 inputs
delivered_to-run_example = Client.Trace.delivered_to-run 7 fresh_client inputs refl

fresh_client-IsConnecting : IsConnecting 0 fresh_client
unfolding lookup
fresh_client-IsConnecting = record {
  extension = refl;
  looping = refl;
  quiet = refl;
  pending = refl;
  unsettled = refl;
}

connect_established_example :
    (c' : Client) × (resume_connect settled 0
        (Client.Trace.run fresh_client (established 7 "10.0.0.9" 4433))
      ≡ some (ok (new_connection_event 7 "10.0.0.9" 4433), c'))
    × (c'.session_id ≡ some 7)
    × (c'.pending_connect ≡ none)
connect_established_example =
    connect_established 0 7 "10.0.0.9" 4433 fresh_client fresh_client-IsConnecting

connect_stale_example :
    (c' : Client) × (resume_connect settled 0
        (on_disconnected 7 "bye" (Client.Trace.run fresh_client (established 7 "10.0.0.9" 4433)))
      ≡ some (ok (new_connection_event 7 "10.0.0.9" 4433), c'))
    × (c'.session_id ≡ some 7)
    × ((Client.send node (1 ∷ []) 1 none c').0 ≡ ok true)
connect_stale_example =
    connect_stale 0 7 "10.0.0.9" "bye" 4433 fresh_client node (1 ∷ []) 1 fresh_client-IsConnecting

abbrev fresh_server : Server.Server
fresh_server = record {
  host = "0.0.0.0";
  port = 4433;
  mail = record { loop = live; queue = []; session_queues = []; ready = [] };
  accept_queue = [];
  backlog = [];
  running = true;
  has_extension = true;
  calls = [];
}

abbrev server_inputs : List Server.Delivery.Input
server_inputs =
    Server.Delivery.Input.new_connection 7 "10.0.0.9" 4433
    ∷ Server.Delivery.Input.turn
    ∷ Server.Delivery.Input.new_connection 8 "10.0.0.8" 4433
    ∷ []

server_delivered-run_example :
    delivered (Server.Delivery.run fresh_server server_inputs).mail
    ≡ delivered fresh_server.mail ++ Server.Delivery.all_reported server_inputs
server_delivered-run_example = Server.Delivery.server_delivered-run fresh_server server_inputs refl

acceptable-run_example :
    Server.Delivery.acceptable (Server.Delivery.run fresh_server server_inputs)
    ≡ Server.Delivery.acceptable fresh_server ++ Server.Delivery.all_connections server_inputs
acceptable-run_example = Server.Delivery.acceptable-run fresh_server server_inputs refl

abbrev session : Session
session = record {
  session_id = 7;
  remote_host = "10.0.0.9";
  remote_port = 4433;
  default_stream_id = 1;
  backlog = [];
}

send-AsksOwner_example :
    AsksOwner
      (send node (1 ∷ []) none session (client_owner fresh_client))
      node
      7
      (1 ∷ [])
      1
      (client_owner fresh_client)
send-AsksOwner_example = send-AsksOwner node (1 ∷ []) none session (client_owner fresh_client)
