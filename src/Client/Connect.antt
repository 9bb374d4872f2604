-- ===== src/Client/Connect.antt =====
-- The handshake future of `connect`: how it is settled, and what becomes of the session.
use veil_python_stack.Prelude.{ℕ, ◌≡◌, refl, true, none, some, List, [], ◌∷◌, String, arith, nat_eq}
use veil_python_stack.Prelude.Dict.{lookup, insert, lookup-insert}
use veil_python_stack.Errors.{ok}
use veil_python_stack.Events.{Event, new_connection_event, session_of}
use veil_python_stack.Mailbox.{Mailbox, live}
use veil_python_stack.Mailbox
use veil_python_stack.Node.{Node}
use veil_python_stack.Client.{
  Client, waiting, resolved, settled, resume_connect, send, on_new_connection, on_disconnected,
  run_next,
}
use veil_python_stack.Client.Trace.{Input, step, run}

-- The state in which the task of `connect` waits on future `f` and the event loop has nothing to do.
pub record IsConnecting (f : ℕ) (c : Client) : Type 0 where
  pub extension : c.has_extension ≡ true
  pub looping : c.mail.loop ≡ live
  pub quiet : c.mail.ready ≡ []
  pub pending : c.pending_connect ≡ some f
  pub unsettled : lookup f c.futures ≡ some waiting

abbrev pub established : ℕ → String → ℕ → List Input
established s h p = Input.new_connection s h p ∷ Input.turn ∷ Input.turn ∷ []

module _ (f s : ℕ) (h : String) (p : ℕ) (c : Client) (i : IsConnecting f c) where
  abbrev after : Client
  after = run c (established s h p)

  futures-after : after.futures ≡ insert f (resolved (new_connection_event s h p)) c.futures
  unfolding run step on_new_connection run_next Mailbox.get_session_queue Mailbox.push_event
      Mailbox.call_soon Mailbox.run_next
  futures-after = ground arith

  pending-after : after.pending_connect ≡ some f
  unfolding run step on_new_connection run_next Mailbox.get_session_queue Mailbox.push_event
      Mailbox.call_soon Mailbox.run_next
  pending-after = ground arith

  extension-after : after.has_extension ≡ true
  unfolding run step on_new_connection run_next Mailbox.get_session_queue Mailbox.push_event
      Mailbox.call_soon Mailbox.run_next
  extension-after = ground arith

  resolved-after : lookup f after.futures ≡ some (resolved (new_connection_event s h p))
  resolved-after =
      rw futures-after
        (ground (arith, lookup-insert f f (resolved (new_connection_event s h p)) c.futures))

finish_resolved :
    (f : ℕ) (e : Event) (c : Client)
    → lookup f c.futures ≡ some (resolved e)
    → c.pending_connect ≡ some f
    → resume_connect settled f c
      ≡ some (ok e, record c { pending_connect = none; session_id = some (session_of e) })
unfolding resume_connect
finish_resolved f e c r p = ground arith

-- A task waits in `connect`, the node reports a new session and the event loop runs: `connect`
-- returns the event of that session, which becomes the active session, and nothing is pending.
pub connect_established :
    (f s : ℕ) (h : String) (p : ℕ) (c : Client)
    → IsConnecting f c
    → (c' : Client) × (resume_connect settled f (run c (established s h p))
        ≡ some (ok (new_connection_event s h p), c'))
      × (c'.session_id ≡ some s)
      × (c'.pending_connect ≡ none)
unfolding session_of
connect_established f s h p c i = (
  record (after f s h p c i) { pending_connect = none; session_id = some s },
  finish_resolved f (new_connection_event s h p) (after f s h p c i) (resolved-after f s h p c i)
      (pending-after f s h p c i),
  refl,
  refl,
)

-- If the session is torn down before the task of `connect` goes on, `connect` returns its event
-- all the same and makes the dead session the active one; a later `send` does not raise, and goes
-- to the dead session.
pub connect_stale :
    (f s : ℕ) (h reason : String) (p : ℕ) (c : Client) (node : Node) (bytes : List ℕ)
    (stream_id : ℕ)
    → IsConnecting f c
    → (c' : Client) × (resume_connect settled f
          (on_disconnected s reason (run c (established s h p)))
        ≡ some (ok (new_connection_event s h p), c'))
      × (c'.session_id ≡ some s)
      × ((send node bytes stream_id none c').0 ≡ ok (node.accepts s bytes stream_id))
unfolding session_of on_disconnected send
connect_stale f s h reason p c node bytes stream_id i = (
  record (on_disconnected s reason (after f s h p c i)) {
    pending_connect = none;
    session_id = some s;
  },
  finish_resolved f (new_connection_event s h p) (on_disconnected s reason (after f s h p c i))
      (resolved-after f s h p c i) (pending-after f s h p c i),
  refl,
  ground (arith, extension-after f s h p c i),
)
