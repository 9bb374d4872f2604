-- ===== src/Mailbox.antt =====
-- The part that veil_core/client.py and veil_core/server.py share word for word: the event queue,
-- the queue of each session, and the callbacks that the threads of the C++ node leave with the
-- event loop by `call_soon_threadsafe`, which runs them in that order. `X` is the owner's own kind
-- of callback.
pub mod Delivery
use veil_python_stack.Prelude.{
  ℕ, Bool, true, false, Option, none, some, List, [], ◌∷◌, ◌++◌, nat_eq, if◌then◌else◌, or_default,
}
use veil_python_stack.Prelude.Dict.{Dict, lookup, insert}
use veil_python_stack.Events.{Event}

-- `self._loop`: None, a loop that does not run, or one that does.
pub data Loop : Type 0 where
  absent idle live : Loop

pub data Callback (X : Type 0) : Type 0 where
  put_main : Event → Callback X
  put_session : ℕ → Event → Callback X
  other : X → Callback X

pub record Mailbox (X : Type 0) : Type 0 where
  pub loop : Loop
  pub queue : List Event
  pub session_queues : Dict ℕ (List Event)
  pub ready : List (Callback X)

abbrev pub is_live : Loop → Bool
is_live live = true
is_live idle = false
is_live absent = false

module _ {X : Type 0} where
  -- `loop.call_soon_threadsafe(callback)`
  unfoldable pub call_soon : Callback X → Mailbox X → Mailbox X
  call_soon k m = record m { ready = m.ready ++ k ∷ [] }

  -- `_get_session_queue`, also `session_queue`: the queue, made if it is not there.
  unfoldable pub get_session_queue : ℕ → Mailbox X → List Event × Mailbox X
  unfolding lookup insert
  get_session_queue s m = elim (lookup s m.session_queues) [
    | none ↦ ([], record m { session_queues = insert s [] m.session_queues })
    | some q ↦ (q, m)
  ]

  -- `_push_event`
  unfoldable pub push_event : Event → Mailbox X → Mailbox X
  push_event e m = if is_live m.loop then call_soon (put_main e) m else m

  -- `_push_session_event`
  unfoldable pub push_session_event : ℕ → Event → Mailbox X → Mailbox X
  push_session_event s e m =
      if is_live m.loop then call_soon (put_session s e) (get_session_queue s m).1 else m

  -- One callback run by the event loop; the owner's own callbacks are handed back.
  unfoldable pub run_callback : Callback X → Mailbox X → Mailbox X × Option X
  unfolding lookup insert
  run_callback (put_main e) m = (record m { queue = m.queue ++ e ∷ [] }, none)
  run_callback (put_session s e) m = (
    record m {
      session_queues =
          insert s (or_default (lookup s m.session_queues) [] ++ e ∷ []) m.session_queues;
    },
    none,
  )
  run_callback (other x) m = (m, some x)

  unfoldable pub run_next : Mailbox X → Mailbox X × Option X
  unfolding run_callback
  run_next m = elim m.ready [ [] ↦ (m, none) | k ∷ ks ↦ run_callback k (record m { ready = ks }) ]

unfoldable pub new_mailbox : {X : Type 0} → Mailbox X
new_mailbox = record { loop = absent; queue = []; session_queues = []; ready = [] }
