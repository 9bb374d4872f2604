-- ===== src/Client/Trace.antt =====
-- Every event that the node reports reaches the queues, whatever else happens in between.
use veil_python_stack.Prelude.{
  ℕ, ◌≡◌, refl, ◌∙◌, ap, Bool, Option, none, some, List, [], ◌∷◌, ◌++◌, String, append-nil,
  append_assoc, arith, nat_eq, ◌==◌, if◌then◌else◌,
}
use veil_python_stack.Errors.{Result, runtime_error}
use veil_python_stack.Events.{
  Event, new_connection_event, data_event, disconnected_event, error_event,
}
use veil_python_stack.Mailbox
use veil_python_stack.Mailbox.{Mailbox, live, other, get_session_queue}
use veil_python_stack.Mailbox.Delivery.{
  delivered, delivered_to, delivered-push_event, delivered_to-push_event,
  delivered_to-push_session_event, delivered-call_soon, loop-call_soon, delivered_to-call_soon,
  loop-get_session_queue, delivered-get_session_queue, delivered_to-get_session_queue, loop_laws,
  loop-run_next, delivered_laws, delivered-run_next, delivered_to_laws, delivered_to-run_next,
}
use veil_python_stack.Node.{Node}
use veil_python_stack.Client.{
  Client, Settle, set_result, set_exception, announce, report, with_mail, Wake, connect,
  resume_connect, send, stop, disconnect, on_new_connection, on_data, on_disconnected, on_error,
  run_next,
}

-- What can happen to a started client: the node reports, the event loop runs a callback, or the
-- program calls a method.
pub data Input : Type 0 where
  new_connection : ℕ → String → ℕ → Input
  data_in : ℕ → ℕ → List ℕ → Input
  disconnected : ℕ → String → Input
  error : ℕ → String → Input
  turn : Input
  call_connect : Node → Input
  wake : Wake → ℕ → Input
  call_send : Node → List ℕ → ℕ → Option ℕ → Input
  call_disconnect : Node → Option ℕ → Input
  call_stop : Input

abbrev awoken : Client → Option (Result Event × Client) → Client
awoken c none = c
awoken c (some (r, c')) = c'

unfoldable pub step : Client → Input → Client
step c (new_connection s h p) = (on_new_connection s h p c).1
step c (data_in s i d) = on_data s i d c
step c (disconnected s r) = on_disconnected s r c
step c (error s m) = on_error s m c
step c turn = run_next c
step c (call_connect node) = (connect node c).1
step c (wake w f) = awoken c (resume_connect w f c)
step c (call_send node d i s) = (send node d i s c).1
step c (call_disconnect node s) = (disconnect node s c).1
step c call_stop = stop c

unfoldable pub run : Client → List Input → Client
run c [] = c
run c (x ∷ xs) = run (step c x) xs

-- The event that an input reports, and its part for the queue of one session.
abbrev pub reported : Input → List Event
reported (new_connection s h p) = new_connection_event s h p ∷ []
reported (data_in s i d) = data_event s i d ∷ []
reported (disconnected s r) = disconnected_event s r ∷ []
reported (error s m) = error_event s m ∷ []
reported _ = []

abbrev pub reported_to : ℕ → Input → List Event
reported_to t (data_in s i d) = if s == t then data_event s i d ∷ [] else []
reported_to t (disconnected s r) = if s == t then disconnected_event s r ∷ [] else []
reported_to t (error s m) = if s == 0 then [] else if s == t then error_event s m ∷ [] else []
reported_to t _ = []

abbrev pub all_reported : List Input → List Event
all_reported [] = []
all_reported (x ∷ xs) = reported x ++ all_reported xs

abbrev pub all_reported_to : ℕ → List Input → List Event
all_reported_to t [] = []
all_reported_to t (x ∷ xs) = reported_to t x ++ all_reported_to t xs

mail-connect : (node : Node) (c : Client) → (connect node c).1.mail ≡ c.mail
unfolding connect
mail-connect node c = ground arith

mail-resume_connect :
    (w : Wake) (f : ℕ) (c : Client) → (awoken c (resume_connect w f c)).mail ≡ c.mail
unfolding resume_connect
mail-resume_connect w f c = ground arith

mail-send :
    (node : Node) (d : List ℕ) (i : ℕ) (s : Option ℕ) (c : Client)
    → (send node d i s c).1.mail ≡ c.mail
unfolding send
mail-send node d i s c = ground arith

mail-disconnect : (node : Node) (s : Option ℕ) (c : Client) → (disconnect node s c).1.mail ≡ c.mail
unfolding disconnect
mail-disconnect node s c = ground arith

mail-stop : (c : Client) → (stop c).mail ≡ c.mail
unfolding stop
mail-stop c = ground arith

mail-run_next : (c : Client) → (run_next c).mail ≡ (Mailbox.run_next c.mail).0
unfolding run_next
mail-run_next c = ground arith

loop-step : (c : Client) (x : Input) → (step c x).mail.loop ≡ c.mail.loop
unfolding step on_new_connection on_data on_disconnected on_error
loop-step c (new_connection s h p) = grind (arith, loop_laws)
loop-step c (data_in s i d) = grind (arith, loop_laws)
loop-step c (disconnected s r) = grind (arith, loop_laws)
loop-step c (error s m) = grind (arith, loop_laws)
loop-step c turn = rw mail-run_next (loop-run_next c.mail)
loop-step c (call_connect node) = ap (λ (m : Mailbox Settle). m.loop) (mail-connect node c)
loop-step c (wake w f) = ap (λ (m : Mailbox Settle). m.loop) (mail-resume_connect w f c)
loop-step c (call_send node d i s) = ap (λ (m : Mailbox Settle). m.loop) (mail-send node d i s c)
loop-step c (call_disconnect node s) =
    ap (λ (m : Mailbox Settle). m.loop) (mail-disconnect node s c)
loop-step c call_stop = ap (λ (m : Mailbox Settle). m.loop) (mail-stop c)

module _ (e : Event) (c : Client) (l : c.mail.loop ≡ live) where
  delivered-announce :
      (o : Option ℕ) → delivered (announce o e c).1.mail ≡ delivered c.mail ++ e ∷ []
  delivered-announce none = delivered-push_event e c.mail l
  delivered-announce (some f) =
      let k = other (set_result f e) in
      let m = Mailbox.call_soon k c.mail in
      ground (
        arith,
        append-nil (delivered c.mail),
        loop-call_soon k c.mail,
        delivered-call_soon k c.mail,
        delivered-push_event e m,
      )

  delivered_to-announce :
      (t : ℕ) (o : Option ℕ) → delivered_to t (announce o e c).1.mail ≡ delivered_to t c.mail
  delivered_to-announce t none = delivered_to-push_event t e c.mail
  delivered_to-announce t (some f) =
      grind (arith, delivered_to_laws, append-nil (delivered_to t c.mail))

module _ (s : ℕ) (message : String) (m : Mailbox Settle) where
  loop-report : (o : Option ℕ) → (report o s message m).loop ≡ m.loop
  loop-report none = refl
  loop-report (some f) =
      ground (arith, loop-call_soon (other (set_exception f (runtime_error message))) m)

  delivered-report : (o : Option ℕ) → delivered (report o s message m) ≡ delivered m
  delivered-report none = refl
  delivered-report (some f) = ground (
    arith,
    append-nil (delivered m),
    delivered-call_soon (other (set_exception f (runtime_error message))) m,
  )

  delivered_to-report :
      (t : ℕ) (o : Option ℕ) → delivered_to t (report o s message m) ≡ delivered_to t m
  delivered_to-report t none = refl
  delivered_to-report t (some f) = ground (
    arith,
    append-nil (delivered_to t m),
    delivered_to-call_soon t (other (set_exception f (runtime_error message))) m,
  )

module _ (s : ℕ) (e : Event) (m : Mailbox Settle) (l : m.loop ≡ live) (b : Bool) where
  abbrev pushed : Mailbox Settle
  pushed = Mailbox.push_event e (if b then m else Mailbox.push_session_event s e m)

  delivered-pushed : delivered pushed ≡ delivered m ++ e ∷ []
  delivered-pushed = grind (arith, delivered_laws)

  delivered_to-pushed :
      (t : ℕ)
      → delivered_to t pushed
        ≡ delivered_to t m ++ (if b then [] else if s == t then e ∷ [] else [])
  delivered_to-pushed t = ground (
    arith,
    append-nil (delivered_to t m),
    delivered_to-push_event t e m,
    delivered_to-push_event t e (Mailbox.push_session_event s e m),
    delivered_to-push_session_event s t e m l,
  )

delivered-step :
    (c : Client) (x : Input)
    → c.mail.loop ≡ live
    → delivered (step c x).mail ≡ delivered c.mail ++ reported x
unfolding step on_new_connection on_data on_disconnected on_error
delivered-step c (new_connection s h p) l = rw (← delivered-get_session_queue s c.mail) (
    delivered-announce _ (with_mail (get_session_queue s c.mail).1 c)
      (loop-get_session_queue s c.mail ∙ l) _)
delivered-step c (data_in s i d) l = grind (arith, delivered_laws)
delivered-step c (disconnected s r) l = grind (arith, delivered_laws)
delivered-step c (error s m) l =
    delivered-pushed s (error_event s m) _ (loop-report s m c.mail _ ∙ l) (s == 0)
    ∙ ap (λ es. es ++ error_event s m ∷ []) (delivered-report s m c.mail _)
delivered-step c turn l = rw (mail-run_next, append-nil) (delivered-run_next c.mail)
delivered-step c (call_connect node) l = rw (mail-connect, append-nil)
delivered-step c (wake w f) l = rw (mail-resume_connect, append-nil)
delivered-step c (call_send node d i s) l = rw (mail-send, append-nil)
delivered-step c (call_disconnect node s) l = rw (mail-disconnect, append-nil)
delivered-step c call_stop l = rw (mail-stop, append-nil)

delivered_to-step :
    (t : ℕ) (c : Client) (x : Input)
    → c.mail.loop ≡ live
    → delivered_to t (step c x).mail ≡ delivered_to t c.mail ++ reported_to t x
unfolding step on_new_connection on_data on_disconnected on_error
delivered_to-step t c (new_connection s h p) l =
    rw (append-nil, ← delivered_to-get_session_queue s t c.mail)
      (delivered_to-announce _ (with_mail (get_session_queue s c.mail).1 c)
        (loop-get_session_queue s c.mail ∙ l) t _)
delivered_to-step t c (data_in s i d) l = grind (arith, delivered_to_laws)
delivered_to-step t c (disconnected s r) l = grind (arith, delivered_to_laws)
delivered_to-step t c (error s m) l =
    delivered_to-pushed s (error_event s m) _ (loop-report s m c.mail _ ∙ l) (s == 0) t
    ∙ ap (λ es. es ++ reported_to t (error s m)) (delivered_to-report s m c.mail t _)
delivered_to-step t c turn l = rw (mail-run_next, append-nil) (delivered_to-run_next t c.mail)
delivered_to-step t c (call_connect node) l = rw (mail-connect, append-nil)
delivered_to-step t c (wake w f) l = rw (mail-resume_connect, append-nil)
delivered_to-step t c (call_send node d i s) l = rw (mail-send, append-nil)
delivered_to-step t c (call_disconnect node s) l = rw (mail-disconnect, append-nil)
delivered_to-step t c call_stop l = rw (mail-stop, append-nil)

-- While the event loop lives, whatever the node reports and the program calls: the main queue, with
-- what is on its way to it, grows by exactly the reported events in the order of the reports.
pub delivered-run :
    (c : Client) (xs : List Input)
    → c.mail.loop ≡ live
    → delivered (run c xs).mail ≡ delivered c.mail ++ all_reported xs
unfolding run
delivered-run c [] l = rw append-nil
delivered-run c (x ∷ xs) l =
    delivered-run (step c x) xs (loop-step c x ∙ l) ∙ rw (delivered-step c x l, append_assoc)

-- While the event loop lives, whatever the node reports and the program calls: the queue of session
-- `t`, with what is on its way to it, grows by exactly the data, disconnection and error events of
-- that session, in their order; errors of session 0 reach no session.
pub delivered_to-run :
    (t : ℕ) (c : Client) (xs : List Input)
    → c.mail.loop ≡ live
    → delivered_to t (run c xs).mail ≡ delivered_to t c.mail ++ all_reported_to t xs
unfolding run
delivered_to-run t c [] l = rw append-nil
delivered_to-run t c (x ∷ xs) l =
    delivered_to-run t (step c x) xs (loop-step c x ∙ l)
    ∙ rw (delivered_to-step t c x l, append_assoc)
