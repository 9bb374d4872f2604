-- ===== src/EventBuffer.antt =====
-- veil_core/_event_buffer.py: selective receive over one queue. `next_event`, `recv_data` and
-- `recv_event` are the methods; `recv_loop` is the `while True` of the last two, on fuel, where
-- `none` means that the fuel ran out.
pub mod Select
pub mod Wanted
use veil_python_stack.Prelude.{
  ℕ, zero, suc, ◌+◌, Bool, true, false, not, Option, none, some, List, [], ◌∷◌, ◌++◌, length,
  nat_eq, ◌==◌, if◌then◌else◌, ◌&&◌,
}
use veil_python_stack.Asyncio.{
  Turn, Await, got, expired, cancelled, blocked, arrivals, queue_get, wait_for_get,
}
use veil_python_stack.Events.{
  Event, new_connection_event, data_event, disconnected_event, error_event,
}
use mathlib.Core.List.{reverse}

-- The buffer's backlog, the queue that it reads, and the schedule of the waits.
pub record Channel : Type 0 where
  pub backlog : List Event
  pub queue : List Event
  pub turns : List (Turn Event)

-- Every event that is there or will arrive, in the order in which it is delivered.
abbrev pub pending : Channel → List Event
pending c = c.backlog ++ (c.queue ++ arrivals c.turns)

-- `extendleft` pushes one item after the other on the left.
unfoldable pub extendleft : List Event → List Event → List Event
extendleft [] backlog = backlog
extendleft (e ∷ es) backlog = extendleft es (e ∷ backlog)

abbrev from_queue : Channel → Await Event × List Event × List (Turn Event) → Await Event × Channel
from_queue c (r, q, ts) = (r, record c { queue = q; turns = ts })

-- `next_event`; `timed` says that `timeout is not None`.
unfoldable pub next_event : Bool → Channel → Await Event × Channel
next_event timed c = elim c.backlog [
  | [] ↦ from_queue c (if timed then wait_for_get c.queue c.turns else queue_get c.queue c.turns)
  | e ∷ es ↦ (got e, record c { backlog = es })
]

-- The `finally` block: `if skipped: self._backlog.extendleft(reversed(skipped))`.
unfoldable pub restore : List Event → Channel → Channel
unfolding extendleft
restore [] c = c
restore (e ∷ es) c = record c { backlog = extendleft (reverse (e ∷ es)) c.backlog }

-- How a receive ends. A task that still waits holds the events that it skipped.
pub data Received : Type 0 where
  returned : Event → Received
  timed_out task_cancelled : Received
  suspended : List Event → Received

-- The body of `while True` in `recv_data` and `recv_event`, after the wait for the next event;
-- `again` is the next round.
unfoldable pub settle :
    (Event → Bool)
    → (List Event → Channel → Option (Received × Channel))
    → List Event
    → Await Event × Channel
    → Option (Received × Channel)
unfolding restore
settle matches again skipped (got e, c) =
    let more = again (skipped ++ e ∷ []) c in
    if matches e then some (returned e, restore skipped c) else more
settle matches again skipped (expired, c) = some (timed_out, restore skipped c)
settle matches again skipped (cancelled, c) = some (task_cancelled, restore skipped c)
settle matches again skipped (blocked, c) = some (suspended skipped, c)

-- The `while True` loop.
unfoldable pub recv_loop :
    (Event → Bool) → Bool → ℕ → List Event → Channel → Option (Received × Channel)
unfolding next_event settle
recv_loop matches timed zero skipped c = none
recv_loop matches timed (suc fuel) skipped c =
    settle matches (recv_loop matches timed fuel) skipped (next_event timed c)

-- Each round of the loop but the last takes one pending event.
abbrev pub enough : Channel → ℕ
enough c = suc (length (pending c))

abbrev pub passes : Option (Event → Bool) → Event → Bool
passes none e = true
passes (some predicate) e = predicate e

abbrev agrees : Option ℕ → ℕ → Bool
agrees none n = true
agrees (some m) n = n == m

-- `_matches_data`
unfoldable pub matches_data : Option ℕ → Option ℕ → Option (Event → Bool) → Event → Bool
matches_data session_id stream_id predicate (data_event s i d) =
    agrees session_id s && (agrees stream_id i && passes predicate (data_event s i d))
matches_data session_id stream_id predicate (new_connection_event s h p) = false
matches_data session_id stream_id predicate (disconnected_event s r) = false
matches_data session_id stream_id predicate (error_event s m) = false

unfoldable pub recv_data :
    Bool → Option ℕ → Option ℕ → Option (Event → Bool) → Channel → Option (Received × Channel)
unfolding recv_loop matches_data
recv_data timed session_id stream_id predicate c =
    recv_loop (matches_data session_id stream_id predicate) timed (enough c) [] c

unfoldable pub recv_event : Bool → (Event → Bool) → Channel → Option (Received × Channel)
unfolding recv_loop
recv_event timed predicate c = recv_loop predicate timed (enough c) [] c

unfoldable pub has_pending : Channel → Bool
has_pending c = elim c.backlog [ [] ↦ false | e ∷ es ↦ true ]
