-- ===== src/Mailbox/Delivery.antt =====
-- What the queues will hold once the event loop has run every callback.
use veil_python_stack.Prelude.{
  ℕ, ◌≡◌, refl, List, [], ◌∷◌, ◌++◌, append-nil, append_assoc, arith, nat_eq, ◌==◌, if◌then◌else◌,
  or_default,
}
use veil_python_stack.Prelude.Dict.{lookup, lookup-insert}
use veil_python_stack.Events.{Event}
use veil_python_stack.Mailbox.{
  Mailbox, Callback, live, put_main, put_session, other, call_soon, get_session_queue, push_event,
  push_session_event, run_next,
}

module _ {X : Type 0} where
  abbrev main_puts : List (Callback X) → List Event
  main_puts [] = []
  main_puts (put_main e ∷ ks) = e ∷ main_puts ks
  main_puts (put_session s e ∷ ks) = main_puts ks
  main_puts (other x ∷ ks) = main_puts ks

  abbrev session_puts : ℕ → List (Callback X) → List Event
  session_puts s [] = []
  session_puts s (put_main e ∷ ks) = session_puts s ks
  session_puts s (put_session t e ∷ ks) =
      let rest = session_puts s ks in if t == s then e ∷ rest else rest
  session_puts s (other x ∷ ks) = session_puts s ks

  -- The main queue and what is on its way to it.
  unfoldable pub delivered : Mailbox X → List Event
  delivered m = m.queue ++ main_puts m.ready

  -- The queue of session `s` and what is on its way to it.
  unfoldable pub delivered_to : ℕ → Mailbox X → List Event
  delivered_to s m = or_default (lookup s m.session_queues) [] ++ session_puts s m.ready

  main_puts-append :
      (ks js : List (Callback X)) → main_puts (ks ++ js) ≡ main_puts ks ++ main_puts js
  main_puts-append [] js = refl
  main_puts-append (put_main e ∷ ks) js = rw (main_puts-append ks js)
  main_puts-append (put_session s e ∷ ks) js = main_puts-append ks js
  main_puts-append (other x ∷ ks) js = main_puts-append ks js

  session_puts-append :
      (s : ℕ) (ks js : List (Callback X))
      → session_puts s (ks ++ js) ≡ session_puts s ks ++ session_puts s js
  session_puts-append s [] js = refl
  session_puts-append s (put_main e ∷ ks) js = session_puts-append s ks js
  session_puts-append s (put_session t e ∷ ks) js = ground (arith, session_puts-append s ks js)
  session_puts-append s (other x ∷ ks) js = session_puts-append s ks js

  pub loop-call_soon : (k : Callback X) (m : Mailbox X) → (call_soon k m).loop ≡ m.loop
  unfolding call_soon
  loop-call_soon k m = refl

  pub loop-get_session_queue : (s : ℕ) (m : Mailbox X) → (get_session_queue s m).1.loop ≡ m.loop
  unfolding get_session_queue
  loop-get_session_queue s m = ground arith

  pub loop-push_event : (e : Event) (m : Mailbox X) → (push_event e m).loop ≡ m.loop
  unfolding push_event call_soon
  loop-push_event e m = ground arith

  pub loop-push_session_event :
      (s : ℕ) (e : Event) (m : Mailbox X) → (push_session_event s e m).loop ≡ m.loop
  unfolding push_session_event call_soon get_session_queue
  loop-push_session_event s e m = ground arith

  pub loop-run_next : (m : Mailbox X) → (run_next m).0.loop ≡ m.loop
  unfolding run_next
  loop-run_next m = ground arith

  pub delivered-call_soon :
      (k : Callback X) (m : Mailbox X)
      → delivered (call_soon k m) ≡ delivered m ++ main_puts (k ∷ [])
  unfolding delivered call_soon
  delivered-call_soon k m = simp (main_puts-append, append_assoc)

  pub delivered_to-call_soon :
      (s : ℕ) (k : Callback X) (m : Mailbox X)
      → delivered_to s (call_soon k m) ≡ delivered_to s m ++ session_puts s (k ∷ [])
  unfolding delivered_to call_soon
  delivered_to-call_soon s k m = simp (session_puts-append, append_assoc)

  pub delivered-get_session_queue :
      (s : ℕ) (m : Mailbox X) → delivered (get_session_queue s m).1 ≡ delivered m
  unfolding delivered get_session_queue
  delivered-get_session_queue s m = ground arith

  pub delivered_to-get_session_queue :
      (s t : ℕ) (m : Mailbox X) → delivered_to t (get_session_queue s m).1 ≡ delivered_to t m
  unfolding delivered_to get_session_queue
  delivered_to-get_session_queue s t m = ground (arith, lookup-insert s t [] m.session_queues)

  pub delivered-push_event :
      (e : Event) (m : Mailbox X)
      → m.loop ≡ live
      → delivered (push_event e m) ≡ delivered m ++ e ∷ []
  unfolding push_event
  delivered-push_event e m h = ground (arith, delivered-call_soon (put_main e) m)

  pub delivered_to-push_event :
      (s : ℕ) (e : Event) (m : Mailbox X) → delivered_to s (push_event e m) ≡ delivered_to s m
  unfolding push_event
  delivered_to-push_event s e m =
      ground (arith, append-nil (delivered_to s m), delivered_to-call_soon s (put_main e) m)

  pub delivered-push_session_event :
      (s : ℕ) (e : Event) (m : Mailbox X) → delivered (push_session_event s e m) ≡ delivered m
  unfolding push_session_event
  delivered-push_session_event s e m = ground (
    arith,
    append-nil (delivered m),
    delivered-get_session_queue s m,
    delivered-call_soon (put_session s e) (get_session_queue s m).1,
  )

  pub delivered_to-push_session_event :
      (s t : ℕ) (e : Event) (m : Mailbox X)
      → m.loop ≡ live
      → delivered_to t (push_session_event s e m)
        ≡ delivered_to t m ++ (if s == t then e ∷ [] else [])
  unfolding push_session_event
  delivered_to-push_session_event s t e m h = ground (
    arith,
    delivered_to-get_session_queue s t m,
    delivered_to-call_soon t (put_session s e) (get_session_queue s m).1,
  )

  pub delivered-run_next : (m : Mailbox X) → delivered (run_next m).0 ≡ delivered m
  unfolding delivered run_next
  delivered-run_next m = go m.ready
    where
      go :
          (ks : List (Callback X))
          → delivered (run_next (record m { ready = ks })).0 ≡ delivered (record m { ready = ks })
      go [] = refl
      go (put_main e ∷ ks) = append_assoc m.queue (e ∷ []) (main_puts ks)
      go (put_session s e ∷ ks) = refl
      go (other x ∷ ks) = refl

  pub delivered_to-run_next :
      (s : ℕ) (m : Mailbox X) → delivered_to s (run_next m).0 ≡ delivered_to s m
  unfolding delivered_to run_next
  delivered_to-run_next s m = go m.ready
    where
      go :
          (ks : List (Callback X))
          → delivered_to s (run_next (record m { ready = ks })).0
            ≡ delivered_to s (record m { ready = ks })
      go [] = refl
      go (put_main e ∷ ks) = refl
      go (put_session t e ∷ ks) =
          let old = or_default (lookup t m.session_queues) [] in
          ground (
            arith,
            lookup-insert t s (old ++ e ∷ []) m.session_queues,
            append_assoc old (e ∷ []) (session_puts s ks),
          )
      go (other x ∷ ks) = refl

pub ruleset loop_laws = (
  loop-call_soon, loop-get_session_queue, loop-push_event, loop-push_session_event, loop-run_next,
)

pub ruleset delivered_laws = (
  loop-call_soon, loop-get_session_queue, loop-push_event, loop-push_session_event, loop-run_next,
  delivered-call_soon, delivered-get_session_queue, delivered-push_event,
  delivered-push_session_event, delivered-run_next,
)

pub ruleset delivered_to_laws = (
  loop-call_soon, loop-get_session_queue, loop-push_event, loop-push_session_event, loop-run_next,
  delivered_to-call_soon, delivered_to-get_session_queue, delivered_to-push_event,
  delivered_to-push_session_event, delivered_to-run_next,
)
