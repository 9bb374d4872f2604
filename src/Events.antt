-- ===== src/Events.antt =====
-- veil_core/events.py: the events that a client or a server emits.
use veil_python_stack.Prelude.{ℕ, List, String}

pub data EventKind : Type 0 where
  new_connection data_received disconnected error : EventKind

-- The subclasses of `Event` with their fields, in the source's order.
pub data Event : Type 0 where
  new_connection_event : (session_id : ℕ) (remote_host : String) (remote_port : ℕ) → Event
  data_event : (session_id stream_id : ℕ) (payload : List ℕ) → Event
  disconnected_event : (session_id : ℕ) (reason : String) → Event
  error_event : (session_id : ℕ) (message : String) → Event

-- `event.kind`, fixed by the class.
unfoldable pub kind : Event → EventKind
kind (new_connection_event s h p) = EventKind.new_connection
kind (data_event s i d) = EventKind.data_received
kind (disconnected_event s r) = EventKind.disconnected
kind (error_event s m) = EventKind.error

-- `event.kind.value`
unfoldable pub kind_value : EventKind → String
kind_value EventKind.new_connection = "NEW_CONNECTION"
kind_value EventKind.data_received = "DATA"
kind_value EventKind.disconnected = "DISCONNECTED"
kind_value EventKind.error = "ERROR"

-- `event.session_id`
unfoldable pub session_of : Event → ℕ
session_of (new_connection_event s h p) = s
session_of (data_event s i d) = s
session_of (disconnected_event s r) = s
session_of (error_event s m) = s
