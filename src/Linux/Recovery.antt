-- ===== src/Linux/Recovery.antt =====
-- The VPN clients that conflict with this one run again afterwards, with one exception.
use veil_python_stack.Prelude.{
  ℕ, ◌≡◌, refl, ap, subst, ◌∙◌, String, true, false, not, ◌&&◌, ◌||◌, none, List, arith,
}
use veil_python_stack.Errors.{Result, ok, err, Error}
use veil_python_stack.Dataclass.{Instance}
use veil_python_stack.Config.{has}
use veil_python_stack.Linux.{World, Conflict, Machine, RuntimeState, Act, after, raise}
use veil_python_stack.Linux.Stop.{Stopped, stop_runtime, conflicts_of}
use veil_python_stack.Linux.Start.{
  Started, start_runtime, check_start, suspend_if, launch, bring_up, on_bring_up, write_files,
  state_of, client_command,
}
use veil_python_stack.Linux.Quiet.{IsQuiet, AreAlike, left_stopped, bind-IsQuiet, AreAlike-trans}
use veil_python_stack.Linux.Quiet.Calls.{
  bring_up-IsQuiet, resolve-IsQuiet, pin_route-IsQuiet, popen-IsQuiet,
}
use veil_python_stack.Linux.Suspended.{restores, Returns, done-Returns, after-Returns, ok-Returns}
use veil_python_stack.Linux.Suspended.Whole.{
  stop_runtime-Returns, check_start-KeepsState, suspend_if-Recorded, launch-HasLaunched,
}

-- After a start: the state file names what was suspended, and that is all that was stopped.
abbrev IsRecorded : World → String → Machine → Started → Machine → Type 0
IsRecorded w s m r n =
    (conflicts_of n.state_file ≡ r.suspended_conflicts)
    × ((not (left_stopped s n.history)
          || (left_stopped s m.history || (w.systemctl && restores s r.suspended_conflicts)))
        ≡ true)

raise-Returns :
    {A : Type 0} (P : Unit {0} → Machine → Type 0) (e : Error) (r : Result A × Machine)
    → Returns (after r (λ a. raise (Unit {0}) e)) P
unfolding Returns
raise-Returns P e (ok a, m) = tt
raise-Returns P e (err f, m) = tt

on_bring_up-IsRecorded :
    (w : World) (s : String) (config : Instance) (r : Result (Unit {0})) (m n : Machine)
    → AreAlike s m n
    → Returns (on_bring_up w config r n) (λ u o. AreAlike s m o)
on_bring_up-IsRecorded w s config (ok u) m n h = done-Returns _ tt n h
on_bring_up-IsRecorded w s config (err e) m n h =
    raise-Returns (λ u o. AreAlike s m o) e (stop_runtime w config n)

start_runtime-IsRecorded :
    (w : World) (s : String) (config : Instance) (m : Machine)
    → Returns (start_runtime w config m) (IsRecorded w s m)
unfolding start_runtime IsQuiet
start_runtime-IsRecorded w s config m =
    let Q : Started → Machine → Type 0 = IsRecorded w s m in
    after-Returns _ Q _ _ (check_start-KeepsState s w config m) (λ cs n1 (f1, h1).
      after-Returns _ Q _ _ (suspend_if-Recorded w s (has "suspend_conflicting_services" config) n1)
        (λ suspended n2 ((p2, f2), h2).
          after-Returns _ Q _ _ (launch-HasLaunched s w config cs suspended n2)
            (λ pid n3 (p3, (f3, h3)).
              after-Returns _ Q _ _
                (on_bring_up-IsRecorded w s config (bring_up w config n3).0 n3
                  (bring_up w config n3).1 (bring_up-IsQuiet s w config n3))
                (λ u n4 (p4, f4, h4).
                  done-Returns Q _ n4 (ap conflicts_of f4 ∙ f3, ground (arith, h1, h2, h3, h4))))))

-- For every machine, configuration and service that `start_runtime` and then `stop_runtime` end
-- without an exception: the service is not left stopped if it was not so before, the pid file and the
-- state file are gone, and what was restored is what had been suspended.
pub stop_runtime-start_runtime :
    (w : World) (s : String) (config : Instance) (m n o : Machine) (r : Started) (q : Stopped)
    → left_stopped s m.history ≡ false
    → start_runtime w config m ≡ (ok r, n)
    → stop_runtime w config n ≡ (ok q, o)
    → (left_stopped s o.history ≡ false)
      × (o.pid_file ≡ none)
      × (o.state_file ≡ none)
      × (q.restored_conflicts ≡ r.suspended_conflicts)
stop_runtime-start_runtime w s config m n o r q before started stopped =
    let (f, h) = ok-Returns _ _ r n started (start_runtime-IsRecorded w s config m) in
    let (p, (g, (e, i))) = ok-Returns _ _ q o stopped (stop_runtime-Returns s w config n) in
    (ground (arith, before, h, i, f), p, g, e ∙ f)

-- If `bring_up` raises an exception once the process was launched, and `stop_runtime` does not, then
-- `start_runtime` raises that exception, a service is not left stopped that was not so before, and
-- the pid file and the state file are gone.
pub start_runtime-bring_up_failed :
    (w : World) (s : String) (config : Instance) (m n1 n2 n3 n4 o : Machine)
    (cs suspended : List Conflict) (pid : ℕ) (e : Error) (q : Stopped)
    → left_stopped s m.history ≡ false
    → check_start w config m ≡ (ok cs, n1)
    → suspend_if w (has "suspend_conflicting_services" config) n1 ≡ (ok suspended, n2)
    → launch w config cs suspended n2 ≡ (ok pid, n3)
    → bring_up w config n3 ≡ (err e, n4)
    → stop_runtime w config n4 ≡ (ok q, o)
    → (start_runtime w config m ≡ (err e, o))
      × (left_stopped s o.history ≡ false)
      × (o.pid_file ≡ none)
      × (o.state_file ≡ none)
unfolding start_runtime IsQuiet
start_runtime-bring_up_failed w s config m n1 n2 n3 n4 o cs suspended pid e q before h1 h2 h3 h4
      h5 =
    let (f1, g1) = ok-Returns _ _ cs n1 h1 (check_start-KeepsState s w config m) in
    let ((p2, f2), g2) =
      ok-Returns _ _ suspended n2 h2
        (suspend_if-Recorded w s (has "suspend_conflicting_services" config) n1) in
    let (p3, (f3, g3)) = ok-Returns _ _ pid n3 h3 (launch-HasLaunched s w config cs suspended n2) in
    let (p4, f4, g4) = bring_up-IsQuiet s w config n3 in
    let (p5, (f5, (e5, g5))) = ok-Returns _ _ q o h5 (stop_runtime-Returns s w config n4) in
    let stopped = ap (λ r. left_stopped s r.1.history) h4 in
    let recorded = ap (λ r. restores s (conflicts_of r.1.state_file)) h4 in
    let kept = ap (λ f. restores s (conflicts_of f)) f4 in
    (
      rw (h1, h2, h3, h4, h5) refl,
      ground (arith, before, g1, g2, g3, g4, g5, stopped, recorded, kept, ap (restores s) f3),
      p5,
      f5,
    )

-- What holds of the machine after an exception
unfoldable OnError : {A : Type 0} → Result A × Machine → (Machine → Type 0) → Type 0
OnError (ok a, m) P = Unit {0}
OnError (err e, m) P = P m

split-OnError :
    {A : Type 0} {B : Type 0} (s : String) (m : Machine) (r : Result A × Machine) (rest : A → Act B)
    → AreAlike s m r.1
    → ((a : A) (n : Machine) → AreAlike s m n → OnError (rest a n) (AreAlike s m))
    → OnError (after r rest) (AreAlike s m)
unfolding OnError
split-OnError s m (ok a, n) rest h step = step a n h
split-OnError s m (err e, n) rest h step = h

after-OnError :
    {A : Type 0} {B : Type 0} (s : String) (m n : Machine) (act : Act A) (rest : A → Act B)
    → AreAlike s m n
    → IsQuiet s act
    → ((a : A) (o : Machine) → AreAlike s m o → OnError (rest a o) (AreAlike s m))
    → OnError (after (act n) rest) (AreAlike s m)
unfolding IsQuiet
after-OnError s m n act rest h q step =
    split-OnError s m (act n) rest (AreAlike-trans s m n (act n).1 h (q n)) step

write_files-OnError :
    (P : Machine → Type 0) (state : RuntimeState) (pid : ℕ) (m : Machine)
    → OnError (write_files state pid m) P
unfolding OnError
write_files-OnError P state pid m = tt

err-OnError :
    {A : Type 0} (P : Machine → Type 0) (r : Result A × Machine) (e : Error) (m : Machine)
    → r ≡ (err e, m)
    → OnError r P
    → P m
unfolding OnError
err-OnError P r e m eq h = subst (λ x. OnError x P) eq h

launch-OnError :
    (s : String) (w : World) (config : Instance) (cs suspended : List Conflict) (m : Machine)
    → OnError (launch w config cs suspended m) (AreAlike s m)
unfolding launch
launch-OnError s w config cs suspended m =
    after-OnError s m m _ _ (refl, refl, refl)
      (bind-IsQuiet s _ _ (resolve-IsQuiet s w _ _) (pin_route-IsQuiet s w config))
      (λ underlay n1 h1.
        after-OnError s m n1 _ _ h1 (popen-IsQuiet s w (client_command w config)) (λ pid n2 h2.
          write_files-OnError (AreAlike s m) (state_of w config underlay suspended) pid n2))

-- If there was no state file and the launch raises an exception, `start_runtime` raises it, there is
-- still no state file, and a service that was suspended before stays left stopped, also after a
-- `stop_runtime` that ends without an exception.
pub start_runtime-launch_failed :
    (w : World) (s : String) (config : Instance) (m n1 n2 n3 o : Machine)
    (cs suspended : List Conflict) (e : Error) (q : Stopped)
    → m.state_file ≡ none
    → check_start w config m ≡ (ok cs, n1)
    → suspend_if w (has "suspend_conflicting_services" config) n1 ≡ (ok suspended, n2)
    → launch w config cs suspended n2 ≡ (err e, n3)
    → stop_runtime w config n3 ≡ (ok q, o)
    → (start_runtime w config m ≡ (err e, n3))
      × (n3.state_file ≡ none)
      × (left_stopped s o.history ≡ left_stopped s n2.history)
unfolding start_runtime restores
start_runtime-launch_failed w s config m n1 n2 n3 o cs suspended e q absent h1 h2 h3 h4 =
    let (f1, g1) = ok-Returns _ _ cs n1 h1 (check_start-KeepsState s w config m) in
    let ((p2, f2), g2) =
      ok-Returns _ _ suspended n2 h2
        (suspend_if-Recorded w s (has "suspend_conflicting_services" config) n1) in
    let (p3, f3, g3) = err-OnError _ _ e n3 h3 (launch-OnError s w config cs suspended n2) in
    let gone = f3 ∙ (f2 ∙ (f1 ∙ absent)) in
    let (p4, (f4, (e4, g4))) = ok-Returns _ _ q o h4 (stop_runtime-Returns s w config n3) in
    (rw (h1, h2, h3) refl, gone, ground (arith, g3, g4, ap (λ f. restores s (conflicts_of f)) gone))
