-- ===== src/Linux/Suspended/Suspend.antt =====
-- Suspending and restoring the conflicting services.
use veil_python_stack.Prelude.{
  ◌≡◌, refl, ◌∙◌, String, Bool, true, false, not, ◌&&◌, ◌||◌, List, [], ◌∷◌, arith, string_eq, ◌==◌,
  if◌then◌else◌,
}
use veil_python_stack.Errors.{Result, ok, err}
use veil_python_stack.Linux.{World, Conflict, Machine, after, ◌>>>◌, done, run_command}
use veil_python_stack.Linux.Services.{
  stop_service, start_service, delete_interface, when, suspend_each, suspend_conflicting_services,
  restore_conflicting_services, detect_conflicting_services,
}
use veil_python_stack.Linux.Quiet.{IsQuiet, left_stopped, quiet}
use veil_python_stack.Linux.Quiet.Calls.{
  delete_interface-IsQuiet, detect_conflicting_services-IsQuiet,
}
use veil_python_stack.Linux.Suspended.{
  restores, Returns, done-Returns, after-Returns, weaken-Returns, quiet-Returns,
}

-- The runtime files are as before.
abbrev pub KeepsFiles : Machine → Machine → Type 0
KeepsFiles m n = (n.pid_file ≡ m.pid_file) × (n.state_file ≡ m.state_file)

anyway :
    {A : Type 0} (P : Machine → Type 0) (r : Result A) (n : Machine)
    → P n
    → Returns (after (r, n) (λ a. done tt)) (λ a o. P o)
unfolding Returns
anyway P (ok a) n h = h
anyway P (err e) n h = tt

-- What `stop_service` and `start_service` do, if there is systemctl
stop_with-Returns :
    (w : World) (b : Bool) (s service : String) (m : Machine)
    → Returns
        ((if b
            then (run_command w true ("systemctl" ∷ "stop" ∷ service ∷ []) >>> λ c. done tt)
            else done tt)
          m)
        (λ a n.
          KeepsFiles m n
          × (left_stopped s n.history ≡ (left_stopped s m.history || (b && service == s))))
unfolding run_command left_stopped Returns
stop_with-Returns w false s service m = ((refl, refl), ground arith)
stop_with-Returns w true s service m =
    anyway
      (λ n.
        KeepsFiles m n × (left_stopped s n.history ≡ (left_stopped s m.history || service == s)))
      _ _ ((refl, refl), ground arith)

start_with-Returns :
    (w : World) (b : Bool) (s service : String) (m : Machine)
    → Returns
        ((if b
            then (run_command w true ("systemctl" ∷ "start" ∷ service ∷ []) >>> λ c. done tt)
            else done tt)
          m)
        (λ a n.
          KeepsFiles m n
          × (left_stopped s n.history ≡ (left_stopped s m.history && not (b && service == s))))
unfolding run_command left_stopped Returns
start_with-Returns w false s service m = ((refl, refl), ground arith)
start_with-Returns w true s service m =
    anyway
      (λ n.
        KeepsFiles m n
        × (left_stopped s n.history ≡ (left_stopped s m.history && not (service == s))))
      _ _ ((refl, refl), ground arith)

when_stop-Returns :
    (w : World) (b : Bool) (s service : String) (m : Machine)
    → Returns (when b (stop_service w service) m) (λ a n.
      KeepsFiles m n
      × (left_stopped s n.history
          ≡ (left_stopped s m.history || (b && (w.systemctl && service == s)))))
unfolding stop_service Returns
when_stop-Returns w false s service m = ((refl, refl), ground arith)
when_stop-Returns w true s service m = stop_with-Returns w w.systemctl s service m

when_start-Returns :
    (w : World) (b : Bool) (s service : String) (m : Machine)
    → Returns (when b (start_service w service) m) (λ a n.
      KeepsFiles m n
      × (left_stopped s n.history
          ≡ (left_stopped s m.history && not (b && (w.systemctl && service == s)))))
unfolding start_service Returns
when_start-Returns w false s service m = ((refl, refl), ground arith)
when_start-Returns w true s service m = start_with-Returns w w.systemctl s service m

when_delete-IsQuiet :
    (s : String) (w : World) (b : Bool) (name : String)
    → IsQuiet s (when b (delete_interface w name))
when_delete-IsQuiet s w true name = delete_interface-IsQuiet s w name
when_delete-IsQuiet s w false name = search quiet

-- The files stay, and a service that is left stopped now was so before, or restoring `cs` starts it.
abbrev pub Recorded : World → String → Machine → List Conflict → Machine → Type 0
Recorded w s m cs n =
    KeepsFiles m n
    × ((not (left_stopped s n.history)
          || (left_stopped s m.history || (w.systemctl && restores s cs)))
        ≡ true)

abbrev deletes : Conflict → Bool
deletes c = c.interface_present && not (c.interface == "")

suspend_each-Recorded :
    (w : World) (s : String) (cs : List Conflict) (m : Machine)
    → Returns (suspend_each w cs m) (Recorded w s m)
unfolding restores
suspend_each-Recorded w s [] m = done-Returns _ _ _ ((refl, refl), ground arith)
suspend_each-Recorded w s (c ∷ cs) m =
    after-Returns _ (Recorded w s m) _ _ (when_stop-Returns w c.was_active s c.service m)
      (λ a n1 ((p1, f1), h1).
        after-Returns _ (Recorded w s m) _ _
          (quiet-Returns s _ n1 (when_delete-IsQuiet s w (deletes c) c.interface))
          (λ b n2 (p2, f2, h2).
            after-Returns _ (Recorded w s m) _ _ (suspend_each-Recorded w s cs n2)
              (λ rest n3 ((p3, f3), h3).
                done-Returns (Recorded w s m)
                  (if c.was_active || c.interface_present then c ∷ rest else rest) n3
                  ((p3 ∙ (p2 ∙ p1), f3 ∙ (f2 ∙ f1)), ground (arith, h1, h2, h3)))))

-- Of one service: suspending changes no runtime file, and it records what it stops.
pub suspend-Recorded :
    (w : World) (s : String) (m : Machine)
    → Returns (suspend_conflicting_services w m) (Recorded w s m)
unfolding suspend_conflicting_services
suspend-Recorded w s m =
    after-Returns _ _ _ _
      (quiet-Returns s (detect_conflicting_services w) m (detect_conflicting_services-IsQuiet s w))
      (λ cs n (p, f, h).
        weaken-Returns _ _ _ (suspend_each-Recorded w s cs n)
          (λ rest n2 ((p2, f2), h2). ((p2 ∙ p, f2 ∙ f), ground (arith, h, h2))))

-- The files stay, and of the services that were left stopped those of `cs` are so no more.
abbrev pub Restored : World → String → List Conflict → Machine → Machine → Type 0
Restored w s cs m n =
    KeepsFiles m n
    × (left_stopped s n.history ≡ (left_stopped s m.history && not (w.systemctl && restores s cs)))

pub restore-Restored :
    (w : World) (s : String) (cs : List Conflict) (m : Machine)
    → Returns (restore_conflicting_services w cs m) (λ a n. Restored w s cs m n)
unfolding restore_conflicting_services restores
restore-Restored w s [] m = done-Returns _ _ _ ((refl, refl), ground arith)
restore-Restored w s (c ∷ cs) m =
    after-Returns _ _ _ _ (when_start-Returns w c.was_active s c.service m) (λ a n1 ((p1, f1), h1).
      weaken-Returns _ _ _ (restore-Restored w s cs n1)
        (λ b n2 ((p2, f2), h2). ((p2 ∙ p1, f2 ∙ f1), ground (arith, h1, h2))))
