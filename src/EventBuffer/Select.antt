-- ===== src/EventBuffer/Select.antt =====
-- `recv_data` and `recv_event` take the first pending event that matches and keep all others.
use veil_python_stack.Prelude.{
  ℕ, zero, suc, ◌<◌, ◌≡◌, refl, ap, ◌∙◌, Bool, true, false, Option, some, List, [], ◌∷◌, ◌++◌,
  nat_eq, append-nil, append_assoc, arith, length, length-append, All, All-append, Bool-cases, inl,
  inr,
}
use veil_python_stack.Asyncio.{
  Turn, Await, got, expired, cancelled, blocked, arrivals, queue_get, wait_for_get,
  queue_get-Conserves, wait_for_get-Conserves, Conserves,
}
use veil_python_stack.Events.{Event}
use veil_python_stack.EventBuffer.{
  Channel, pending, from_queue, settle, extendleft, next_event, restore, Received, returned,
  timed_out, task_cancelled, suspended, recv_loop, enough, recv_event,
}
use mathlib.Core.List.{reverse, reverse-cons, reverse-reverse}

extendleft-eq : (es backlog : List Event) → extendleft es backlog ≡ reverse es ++ backlog
unfolding extendleft
extendleft-eq [] backlog = refl
extendleft-eq (e ∷ es) backlog = rw (reverse-cons, append_assoc) (extendleft-eq es (e ∷ backlog))

-- The `finally` block puts the skipped events back in front, in their order.
restore-eq :
    (skipped : List Event) (c : Channel)
    → restore skipped c ≡ record c { backlog = skipped ++ c.backlog }
unfolding restore
restore-eq [] c = refl
restore-eq (e ∷ es) c = rw (extendleft-eq, reverse-reverse)

pending-restore :
    (skipped : List Event) (c : Channel) → pending (restore skipped c) ≡ skipped ++ pending c
pending-restore skipped c = rw (restore-eq, append_assoc)

backlog-restore :
    (skipped : List Event) (c : Channel) → c.backlog ≡ [] → (restore skipped c).backlog ≡ skipped
backlog-restore skipped c e =
    ap (λ (d : Channel). d.backlog) (restore-eq skipped c) ∙ rw e (append-nil skipped)

abbrev Takes : List Event → Await Event × Channel → Type 0
Takes all (got e, c) = all ≡ e ∷ pending c
Takes all (expired, c) = (all ≡ pending c) × (c.backlog ≡ [])
Takes all (cancelled, c) = (all ≡ pending c) × (c.backlog ≡ [])
Takes all (blocked, c) = (all ≡ []) × (pending c ≡ [])

from_queue-Takes :
    (c : Channel) (r : Await Event × List Event × List (Turn Event))
    → c.backlog ≡ []
    → Conserves (c.queue ++ arrivals c.turns) r
    → Takes (c.queue ++ arrivals c.turns) (from_queue c r)
from_queue-Takes c (got e, q, ts) b h = rw b h
from_queue-Takes c (expired, q, ts) b h = (rw b h, b)
from_queue-Takes c (cancelled, q, ts) b h = (rw b h, b)
from_queue-Takes c (blocked, q, ts) b h = (h.0, rw b (h.1))

next_event-Takes : (timed : Bool) (c : Channel) → Takes (pending c) (next_event timed c)
unfolding next_event
next_event-Takes timed c = go timed c.backlog c.queue c.turns
  where
    go :
        (timed : Bool) (b q : List Event) (ts : List (Turn Event))
        → let c : Channel = record { backlog = b; queue = q; turns = ts } in
          Takes (pending c) (next_event timed c)
    go true [] q ts =
        from_queue-Takes (record { backlog = []; queue = q; turns = ts }) (wait_for_get q ts) refl
          (wait_for_get-Conserves q ts)
    go false [] q ts =
        from_queue-Takes (record { backlog = []; queue = q; turns = ts }) (queue_get q ts) refl
          (queue_get-Conserves q ts)
    go timed (x ∷ xs) q ts = refl

module _ (matches : Event → Bool) where
  abbrev pub Unmatched : List Event → Type 0
  Unmatched es = All (λ e. matches e ≡ false) es

  -- How a receive may end, with `all` pending before it: it returns the first event that matches
  -- and all others stay pending in their order; or it times out or is cancelled, nothing in the
  -- backlog matches and everything is pending as before; or it still waits, holds every event,
  -- and none matches.
  abbrev pub Delivers : List Event → Received × Channel → Type 0
  Delivers all (returned e, c) =
      (pre post : List Event) × (all ≡ pre ++ e ∷ post)
      × Unmatched pre
      × (matches e ≡ true)
      × (pending c ≡ pre ++ post)
  Delivers all (timed_out, c) = (pending c ≡ all) × Unmatched c.backlog
  Delivers all (task_cancelled, c) = (pending c ≡ all) × Unmatched c.backlog
  Delivers all (suspended held, c) = (held ≡ all) × (pending c ≡ []) × Unmatched held

  abbrev pub Ends : List Event → Option (Received × Channel) → Type 0
  Ends all o = (r : Received × Channel) × (o ≡ some r) × Delivers all r

  settle-Ends :
      (again : List Event → Channel → Option (Received × Channel)) (skipped : List Event)
      (all : List Event) (r : Await Event × Channel)
      → Unmatched skipped
      → Takes all r
      → ((e : Event)
          → all ≡ e ∷ pending r.1
          → Unmatched (skipped ++ e ∷ [])
          → Ends (skipped ++ all) (again (skipped ++ e ∷ []) r.1))
      → Ends (skipped ++ all) (settle matches again skipped r)
  unfolding settle
  settle-Ends again skipped all (got e, c) u t next = elim (Bool-cases (matches e)) [
    | inl hit ↦ (
      (returned e, restore skipped c),
      rw hit refl,
      (skipped, pending c, ap (λ l. skipped ++ l) t, u, hit, pending-restore skipped c),
    )
    | inr miss ↦ rw miss (next e t (All-append _ skipped (e ∷ []) u (miss, tt)))
  ]
  settle-Ends again skipped all (expired, c) u (t, b) next = (
    (timed_out, restore skipped c),
    refl,
    (rw t (pending-restore skipped c), rw (backlog-restore skipped c b) u),
  )
  settle-Ends again skipped all (cancelled, c) u (t, b) next = (
    (task_cancelled, restore skipped c),
    refl,
    (rw t (pending-restore skipped c), rw (backlog-restore skipped c b) u),
  )
  settle-Ends again skipped all (blocked, c) u (t, p) next =
      ((suspended skipped, c), refl, (rw (t, append-nil) refl, p, u))

  pub recv_loop-Ends :
      (timed : Bool) (fuel : ℕ) (skipped : List Event) (c : Channel)
      → Unmatched skipped
      → length (pending c) < fuel
      → Ends (skipped ++ pending c) (recv_loop matches timed fuel skipped c)
  unfolding recv_loop
  recv_loop-Ends timed zero skipped c u h = absurd (omega arith)
  recv_loop-Ends timed (suc fuel) skipped c u h =
      settle-Ends (recv_loop matches timed fuel) skipped (pending c) (next_event timed c) u
        (next_event-Takes timed c)
        λ e t u'.
          let c' = (next_event timed c).1 in
          rw (t, ← append_assoc skipped (e ∷ []) (pending c'))
            (recv_loop-Ends timed fuel (skipped ++ e ∷ []) c' u' (omega (arith, ap length t)))

-- Whatever the schedule of waits, `recv_event` ends without running out of fuel. It returns the
-- first pending event that satisfies the predicate, and all other events stay pending in their
-- order; or it times out or is cancelled, then everything is pending as before and nothing in the
-- backlog satisfies the predicate; or it is still suspended at the end of the schedule, then it
-- holds every event, and none satisfies the predicate.
pub recv_event-Ends :
    (timed : Bool) (predicate : Event → Bool) (c : Channel)
    → Ends predicate (pending c) (recv_event timed predicate c)
unfolding recv_event
recv_event-Ends timed predicate c = recv_loop-Ends predicate timed (enough c) [] c tt (omega arith)

module _ (predicate : Event → Bool) (timed : Bool) (e : Event) (post q : List Event)
    (ts : List (Turn Event)) (hit : predicate e ≡ true) where
  abbrev with_backlog : List Event → Channel
  with_backlog b = record { backlog = b; queue = q; turns = ts }

  recv_loop_from_backlog :
      (fuel : ℕ) (skipped pre : List Event)
      → length pre < fuel
      → Unmatched predicate pre
      → recv_loop predicate timed fuel skipped (with_backlog (pre ++ e ∷ post))
        ≡ some (returned e, with_backlog (skipped ++ (pre ++ post)))
  unfolding recv_loop next_event settle
  recv_loop_from_backlog zero skipped pre h u = absurd (omega arith)
  recv_loop_from_backlog (suc fuel) skipped [] h u = rw (hit, restore-eq) refl
  recv_loop_from_backlog (suc fuel) skipped (x ∷ pre) h u =
      rw (u.0, ← append_assoc skipped (x ∷ []) (pre ++ post))
        (recv_loop_from_backlog fuel (skipped ++ x ∷ []) pre (omega arith) u.1)

-- A match in the backlog is returned at once: no wait is made, so no timeout or cancellation can
-- come first, and the queue is not touched.
pub recv_event_from_backlog :
    (timed : Bool) (predicate : Event → Bool) (pre post : List Event) (e : Event) (q : List Event)
    (ts : List (Turn Event))
    → Unmatched predicate pre
    → predicate e ≡ true
    → recv_event timed predicate (record { backlog = pre ++ e ∷ post; queue = q; turns = ts })
      ≡ some (returned e, record { backlog = pre ++ post; queue = q; turns = ts })
unfolding recv_event
recv_event_from_backlog timed predicate pre post e q ts u hit =
    recv_loop_from_backlog predicate timed e post q ts hit
      (enough (record { backlog = pre ++ e ∷ post; queue = q; turns = ts })) [] pre
      (omega (
        arith,
        length-append {0} pre (e ∷ post),
        length-append {0} (pre ++ e ∷ post) (q ++ arrivals ts),
      ))
      u
