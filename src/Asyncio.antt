-- ===== src/Asyncio.antt =====
-- asyncio.Queue and asyncio.wait_for, as the program awaits them (veil_core/_event_buffer.py,
-- veil_core/server.py, veil_core/vpn.py). The event loop decides what happens while a task waits:
-- a schedule of turns lists it. Every theorem holds for every schedule.
use veil_python_stack.Prelude.{◌≡◌, refl, List, [], ◌∷◌, ◌++◌, append_assoc}

-- What happens during one wait on `queue.get()`: the items that other tasks put meanwhile, and
-- whether the task goes on, its timeout expires, or it is cancelled.
pub data Turn (A : Type 0) : Type 0 where
  proceed expire cancel : List A → Turn A

-- The end of a wait: an item, TimeoutError, CancelledError, or the task still waits at the end of
-- the schedule.
pub data Await (A : Type 0) : Type 0 where
  got : A → Await A
  expired cancelled blocked : Await A

module _ {A : Type 0} where
  -- All items that the schedule still brings.
  pub arrivals : List (Turn A) → List A
  arrivals [] = []
  arrivals (proceed xs ∷ ts) = xs ++ arrivals ts
  arrivals (expire xs ∷ ts) = xs ++ arrivals ts
  arrivals (cancel xs ∷ ts) = xs ++ arrivals ts

  -- The end of a turn that did not stop the task: the head of the queue, or the wait goes on.
  abbrev resume :
      List A → List (Turn A) → Await A × List A × List (Turn A) → Await A × List A × List (Turn A)
  resume [] ts rest = rest
  resume (x ∷ xs) ts rest = (got x, xs, ts)

  -- `await queue.get()`: with an item at hand the task does not wait.
  unfoldable pub queue_get : List A → List (Turn A) → Await A × List A × List (Turn A)
  queue_get (x ∷ q) ts = (got x, q, ts)
  queue_get [] [] = (blocked, [], [])
  queue_get [] (proceed xs ∷ ts) = let rest = queue_get [] ts in resume xs ts rest
  queue_get [] (expire xs ∷ ts) = let rest = queue_get [] ts in resume xs ts rest
  queue_get [] (cancel xs ∷ ts) = (cancelled, xs, ts)

  -- `await asyncio.wait_for(queue.get(), timeout=...)`: the timeout may expire also with an item
  -- at hand, as it does when it is 0.
  unfoldable pub wait_for_get : List A → List (Turn A) → Await A × List A × List (Turn A)
  wait_for_get q [] = resume q [] (blocked, [], [])
  wait_for_get q (proceed xs ∷ ts) = let rest = wait_for_get [] ts in resume (q ++ xs) ts rest
  wait_for_get q (expire xs ∷ ts) = (expired, q ++ xs, ts)
  wait_for_get q (cancel xs ∷ ts) = (cancelled, q ++ xs, ts)

  -- Of all items, those at hand and those to come, a wait takes the first one or none, and what is
  -- left keeps its order.
  abbrev pub Conserves : List A → Await A × List A × List (Turn A) → Type 0
  Conserves all (got x, q, ts) = all ≡ x ∷ (q ++ arrivals ts)
  Conserves all (expired, q, ts) = all ≡ q ++ arrivals ts
  Conserves all (cancelled, q, ts) = all ≡ q ++ arrivals ts
  Conserves all (blocked, q, ts) = (all ≡ []) × (q ++ arrivals ts ≡ [])

  resume-Conserves :
      (q : List A) (ts : List (Turn A)) (rest : Await A × List A × List (Turn A))
      → Conserves (arrivals ts) rest
      → Conserves (q ++ arrivals ts) (resume q ts rest)
  resume-Conserves [] ts rest h = h
  resume-Conserves (x ∷ q) ts rest h = refl

  pub queue_get-Conserves :
      (q : List A) (ts : List (Turn A)) → Conserves (q ++ arrivals ts) (queue_get q ts)
  unfolding queue_get arrivals
  queue_get-Conserves (x ∷ q) ts = refl
  queue_get-Conserves [] [] = (refl, refl)
  queue_get-Conserves [] (proceed xs ∷ ts) =
      resume-Conserves xs ts (queue_get [] ts) (queue_get-Conserves [] ts)
  queue_get-Conserves [] (expire xs ∷ ts) =
      resume-Conserves xs ts (queue_get [] ts) (queue_get-Conserves [] ts)
  queue_get-Conserves [] (cancel xs ∷ ts) = refl

  pub wait_for_get-Conserves :
      (q : List A) (ts : List (Turn A)) → Conserves (q ++ arrivals ts) (wait_for_get q ts)
  unfolding wait_for_get arrivals
  wait_for_get-Conserves [] [] = (refl, refl)
  wait_for_get-Conserves (x ∷ q) [] = refl
  wait_for_get-Conserves q (proceed xs ∷ ts) =
      rw (← append_assoc)
        (resume-Conserves (q ++ xs) ts (wait_for_get [] ts) (wait_for_get-Conserves [] ts))
  wait_for_get-Conserves q (expire xs ∷ ts) = rw append_assoc
  wait_for_get-Conserves q (cancel xs ∷ ts) = rw append_assoc
