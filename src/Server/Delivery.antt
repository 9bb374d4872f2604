-- ===== src/Server/Delivery.antt =====
-- Every event that the node reports reaches the server's queues.
use veil_python_stack.Prelude.{
  ℕ, ◌≡◌, refl, ◌∙◌, List, [], ◌∷◌, ◌++◌, String, append-nil, append_assoc, arith, nat_eq,
}
use veil_python_stack.Events.{
  Event, new_connection_event, data_event, disconnected_event, error_event,
}
use veil_python_stack.Mailbox
use veil_python_stack.Mailbox.{
  Mailbox, Callback, put_main, put_session, other, live, call_soon, get_session_queue, push_event,
  push_session_event,
}
use veil_python_stack.Mailbox.Delivery.{
  delivered, delivered_laws, delivered-run_next, loop-run_next, loop_laws,
}
use veil_python_stack.Node.{Node}
use veil_python_stack.Server.{
  Server, Accept, put_accept, send, disconnect, stop, push_accept_event, on_new_connection, on_data,
  on_disconnected, on_error, run_next,
}

-- What can happen to a started server.
pub data Input : Type 0 where
  new_connection : ℕ → String → ℕ → Input
  data_in : ℕ → ℕ → List ℕ → Input
  disconnected : ℕ → String → Input
  error : ℕ → String → Input
  turn : Input
  call_send : Node → ℕ → List ℕ → ℕ → Input
  call_disconnect : Node → ℕ → Input
  call_stop : Input

unfoldable pub step : Server → Input → Server
step c (new_connection s h p) = on_new_connection s h p c
step c (data_in s i d) = on_data s i d c
step c (disconnected s r) = on_disconnected s r c
step c (error s m) = on_error s m c
step c turn = run_next c
step c (call_send node s d i) = (send node s d i c).1
step c (call_disconnect node s) = (disconnect node s c).1
step c call_stop = stop c

unfoldable pub run : Server → List Input → Server
run c [] = c
run c (x ∷ xs) = run (step c x) xs

-- The event that an input reports, and its part for `accept`.
abbrev pub reported : Input → List Event
reported (new_connection s h p) = new_connection_event s h p ∷ []
reported (data_in s i d) = data_event s i d ∷ []
reported (disconnected s r) = disconnected_event s r ∷ []
reported (error s m) = error_event s m ∷ []
reported _ = []

abbrev pub connections : Input → List Event
connections (new_connection s h p) = new_connection_event s h p ∷ []
connections _ = []

abbrev pub all_reported : List Input → List Event
all_reported [] = []
all_reported (x ∷ xs) = reported x ++ all_reported xs

abbrev pub all_connections : List Input → List Event
all_connections [] = []
all_connections (x ∷ xs) = connections x ++ all_connections xs

abbrev accept_puts : List (Callback Accept) → List Event
accept_puts [] = []
accept_puts (put_main e ∷ ks) = accept_puts ks
accept_puts (put_session s e ∷ ks) = accept_puts ks
accept_puts (other (put_accept e) ∷ ks) = e ∷ accept_puts ks

-- The peers that `accept` will hand out, with those on their way to its queue.
unfoldable pub acceptable : Server → List Event
acceptable c = c.accept_queue ++ accept_puts c.mail.ready

accept_puts-append :
    (ks js : List (Callback Accept)) → accept_puts (ks ++ js) ≡ accept_puts ks ++ accept_puts js
accept_puts-append [] js = refl
accept_puts-append (put_main e ∷ ks) js = accept_puts-append ks js
accept_puts-append (put_session s e ∷ ks) js = accept_puts-append ks js
accept_puts-append (other (put_accept e) ∷ ks) js = rw (accept_puts-append ks js)

module _ (m : Mailbox Accept) where
  loop-push_accept_event : (e : Event) → (push_accept_event e m).loop ≡ m.loop
  unfolding push_accept_event call_soon
  loop-push_accept_event e = ground arith

  delivered-push_accept_event : (e : Event) → delivered (push_accept_event e m) ≡ delivered m
  unfolding push_accept_event
  delivered-push_accept_event e = grind (arith, delivered_laws, append-nil)

  puts-call_soon :
      (k : Callback Accept)
      → accept_puts (call_soon k m).ready ≡ accept_puts m.ready ++ accept_puts (k ∷ [])
  unfolding call_soon
  puts-call_soon k = accept_puts-append m.ready (k ∷ [])

  puts-get_session_queue :
      (s : ℕ) → accept_puts (get_session_queue s m).1.ready ≡ accept_puts m.ready
  unfolding get_session_queue
  puts-get_session_queue s = ground arith

  puts-push_event : (e : Event) → accept_puts (push_event e m).ready ≡ accept_puts m.ready
  unfolding push_event
  puts-push_event e = ground (arith, puts-call_soon (put_main e), append-nil (accept_puts m.ready))

module _ (m : Mailbox Accept) where
  puts-push_session_event :
      (s : ℕ) (e : Event) → accept_puts (push_session_event s e m).ready ≡ accept_puts m.ready
  unfolding push_session_event
  puts-push_session_event s e =
      let m' = (get_session_queue s m).1 in
      ground (
        arith,
        puts-call_soon m' (put_session s e),
        puts-get_session_queue m s,
        append-nil (accept_puts m.ready),
      )

  puts-push_accept_event :
      (e : Event)
      → m.loop ≡ live
      → accept_puts (push_accept_event e m).ready ≡ accept_puts m.ready ++ e ∷ []
  unfolding push_accept_event
  puts-push_accept_event e l = ground (arith, puts-call_soon m (other (put_accept e)))

ruleset puts_laws = (
  loop_laws, puts-push_event, puts-push_session_event, puts-push_accept_event,
  puts-get_session_queue,
)

ruleset server_laws = (delivered_laws, loop-push_accept_event, delivered-push_accept_event)

mail-run_next : (c : Server) → (run_next c).mail ≡ (Mailbox.run_next c.mail).0
unfolding run_next
mail-run_next c = ground arith

loop-step : (c : Server) (x : Input) → (step c x).mail.loop ≡ c.mail.loop
unfolding step on_new_connection on_data on_disconnected on_error send disconnect stop
loop-step c turn = rw mail-run_next (loop-run_next c.mail)
loop-step c _ = grind (arith, loop_laws, loop-push_accept_event)

delivered-step :
    (c : Server) (x : Input)
    → c.mail.loop ≡ live
    → delivered (step c x).mail ≡ delivered c.mail ++ reported x
unfolding step on_new_connection on_data on_disconnected on_error send disconnect stop
delivered-step c turn l = rw (mail-run_next, append-nil) (delivered-run_next c.mail)
delivered-step c _ l = grind (arith, server_laws, append-nil)

acceptable-run_next : (c : Server) → acceptable (run_next c) ≡ acceptable c
unfolding acceptable run_next Mailbox.run_next
acceptable-run_next c = go c.mail.ready
  where
    go :
        (ks : List (Callback Accept))
        → let c' = record c { mail = record c.mail { ready = ks } } in
          acceptable (run_next c') ≡ acceptable c'
    go [] = refl
    go (put_main e ∷ ks) = refl
    go (put_session s e ∷ ks) = refl
    go (other (put_accept e) ∷ ks) = append_assoc c.accept_queue (e ∷ []) (accept_puts ks)

puts-step :
    (c : Server) (x : Input)
    → c.mail.loop ≡ live
    → acceptable (step c x) ≡ acceptable c ++ connections x
unfolding step on_new_connection on_data on_disconnected on_error send disconnect stop acceptable
puts-step c turn l = rw append-nil (acceptable-run_next c)
puts-step c _ l = grind (arith, puts_laws, append-nil, append_assoc)

-- While the event loop lives, whatever the node reports and the program calls: the main queue, with
-- what is on its way to it, grows by exactly the reported events in the order of the reports.
pub server_delivered-run :
    (c : Server) (xs : List Input)
    → c.mail.loop ≡ live
    → delivered (run c xs).mail ≡ delivered c.mail ++ all_reported xs
unfolding run
server_delivered-run c [] l = rw append-nil
server_delivered-run c (x ∷ xs) l =
    server_delivered-run (step c x) xs (loop-step c x ∙ l) ∙ rw (delivered-step c x l, append_assoc)

-- While the event loop lives, whatever the node reports and the program calls: the peers that
-- `accept` will hand out grow by exactly the new connections, in their order.
pub acceptable-run :
    (c : Server) (xs : List Input)
    → c.mail.loop ≡ live
    → acceptable (run c xs) ≡ acceptable c ++ all_connections xs
unfolding run
acceptable-run c [] l = rw append-nil
acceptable-run c (x ∷ xs) l =
    acceptable-run (step c x) xs (loop-step c x ∙ l) ∙ rw (puts-step c x l, append_assoc)
