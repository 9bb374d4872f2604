-- ===== src/Linux/Suspended/Whole.antt =====
-- `start_runtime` and `stop_runtime` as a whole.
use veil_python_stack.Prelude.{
  ℕ, ◌≡◌, refl, ◌∙◌, String, Bool, true, false, not, ◌&&◌, Option, none, some, List, [], ◌∷◌, arith,
  string_eq, Bool-cases, inl, inr,
}
use veil_python_stack.Errors.{Result, ok, err, is_gone}
use veil_python_stack.Dataclass.{Instance}
use veil_python_stack.Config.{has}
use veil_python_stack.Linux.{World, Conflict, Machine, attempt, kill, probe}
use veil_python_stack.Linux.Services.{detect_conflicting_services}
use veil_python_stack.Linux.Stop.{
  Stopped, stop_runtime, stop_process, terminate_process, without_pid_file, conflicts_of,
}
use veil_python_stack.Linux.Start.{
  check_start, check_pid, on_check, refuse_conflicts, suspend_if, launch, client_command,
}
use veil_python_stack.Linux.Quiet.{IsQuiet, left_stopped, quiet, bind-IsQuiet, kill-IsQuiet}
use veil_python_stack.Linux.Quiet.Calls.{
  detect_conflicting_services-IsQuiet, resolve-IsQuiet, terminate_process-IsQuiet,
  delete_routes-IsQuiet, pin_route-IsQuiet, popen-IsQuiet,
}
use veil_python_stack.Linux.Suspended.{
  restores, Returns, done-Returns, after-Returns, any-Returns, quiet-Returns,
}
use veil_python_stack.Linux.Suspended.Suspend.{Recorded, suspend-Recorded, restore-Restored}

-- The state file and the services stay.
abbrev pub KeepsState : String → Machine → Machine → Type 0
KeepsState s m n =
    (n.state_file ≡ m.state_file) × (left_stopped s n.history ≡ left_stopped s m.history)

stop_process-Returns :
    (s : String) (w : World) (p : Option ℕ) (m : Machine)
    → m.pid_file ≡ p
    → Returns (stop_process w p m) (λ a n. (n.pid_file ≡ none) × KeepsState s m n)
unfolding IsQuiet
stop_process-Returns s w none m e = done-Returns _ tt m (e, (refl, refl))
stop_process-Returns s w (some pid) m e =
    any-Returns (λ n. (n.pid_file ≡ none) × KeepsState s m n)
      (attempt (terminate_process w pid) without_pid_file m)
      (let (p, f, h) = terminate_process-IsQuiet s w pid m in (refl, (f, h)))

-- The files are gone, and the services that the state file named are started.
abbrev pub HasStopped : World → String → List Conflict → Machine → Stopped → Machine → Type 0
HasStopped w s cs m q n =
    (n.pid_file ≡ none)
    × ((n.state_file ≡ none)
        × ((q.restored_conflicts ≡ cs)
            × (left_stopped s n.history
                ≡ (left_stopped s m.history && not (w.systemctl && restores s cs)))))

pub stop_runtime-Returns :
    (s : String) (w : World) (config : Instance) (m : Machine)
    → Returns (stop_runtime w config m) (HasStopped w s (conflicts_of m.state_file) m)
unfolding stop_runtime
stop_runtime-Returns s w config m =
    let Q : Stopped → Machine → Type 0 = HasStopped w s (conflicts_of m.state_file) m in
    after-Returns _ Q _ _ (stop_process-Returns s w m.pid_file m refl) (λ a n1 (p1, (f1, h1)).
      after-Returns _ Q _ _ (quiet-Returns s _ n1 (delete_routes-IsQuiet s w config))
        (λ b n2 (p2, f2, h2).
          after-Returns _ Q _ _ (restore-Restored w s (conflicts_of m.state_file) n2)
            (λ c n3 ((p3, f3), h3).
              done-Returns Q _ _ (p3 ∙ (p2 ∙ p1), (refl, (refl, ground (arith, h1, h2, h3)))))))

on_check-KeepsState :
    (s : String) (r : Result (Unit {0})) (m : Machine) → KeepsState s m (on_check r m).1
on_check-KeepsState s (ok u) m = (refl, refl)
on_check-KeepsState s (err e) m = elim (Bool-cases (is_gone e)) [
  | inl y ↦ rw y (refl, refl)
  | inr n ↦ rw n (refl, refl)
]

check_pid-KeepsState :
    (s : String) (w : World) (p : Option ℕ) (m : Machine) → KeepsState s m (check_pid w p m).1
unfolding IsQuiet
check_pid-KeepsState s w none m = (refl, refl)
check_pid-KeepsState s w (some pid) m =
    let (p, f, h) = kill-IsQuiet s w probe pid m in
    let (g, i) = on_check-KeepsState s (kill w probe pid m).0 (kill w probe pid m).1 in
    (g ∙ f, i ∙ h)

refuse-IsQuiet : (s : String) (b : Bool) (cs : List Conflict) → IsQuiet s (refuse_conflicts b cs)
refuse-IsQuiet s b [] = search quiet
refuse-IsQuiet s b (c ∷ cs) = search quiet

pub check_start-KeepsState :
    (s : String) (w : World) (config : Instance) (m : Machine)
    → Returns (check_start w config m) (λ cs n. KeepsState s m n)
unfolding check_start
check_start-KeepsState s w config m =
    let Q : List Conflict → Machine → Type 0 = (λ cs n. KeepsState s m n) in
    after-Returns _ Q _ _
      (quiet-Returns s (detect_conflicting_services w) m (detect_conflicting_services-IsQuiet s w))
      (λ cs n1 (p1, f1, h1).
        after-Returns (λ u n. KeepsState s n1 n) Q _ _
          (any-Returns (λ n. KeepsState s n1 n) _ (check_pid-KeepsState s w n1.pid_file n1))
          (λ u n2 (f2, h2).
            after-Returns _ Q _ _
              (quiet-Returns s _ n2
                (refuse-IsQuiet s (has "suspend_conflicting_services" config) cs))
              (λ v n3 (p3, f3, h3). done-Returns Q cs n3 (f3 ∙ (f2 ∙ f1), h3 ∙ (h2 ∙ h1)))))

-- Whether a service was suspended or not, it is recorded what was stopped.
pub suspend_if-Recorded :
    (w : World) (s : String) (b : Bool) (m : Machine) → Returns (suspend_if w b m) (Recorded w s m)
suspend_if-Recorded w s true m = suspend-Recorded w s m
suspend_if-Recorded w s false m = done-Returns _ [] m ((refl, refl), ground arith)

-- The state file that is written names the suspended services.
abbrev pub HasLaunched : String → List Conflict → Machine → ℕ → Machine → Type 0
HasLaunched s suspended m pid n =
    (n.pid_file ≡ some pid)
    × ((conflicts_of n.state_file ≡ suspended)
        × (left_stopped s n.history ≡ left_stopped s m.history))

pub launch-HasLaunched :
    (s : String) (w : World) (config : Instance) (cs suspended : List Conflict) (m : Machine)
    → Returns (launch w config cs suspended m) (HasLaunched s suspended m)
unfolding launch
launch-HasLaunched s w config cs suspended m =
    let Q : ℕ → Machine → Type 0 = HasLaunched s suspended m in
    after-Returns _ Q _ _
      (quiet-Returns s _ m
        (bind-IsQuiet s _ _ (resolve-IsQuiet s w _ _) (pin_route-IsQuiet s w config)))
      (λ underlay n1 (p1, f1, h1).
        after-Returns _ Q _ _ (quiet-Returns s _ n1 (popen-IsQuiet s w (client_command w config)))
          (λ pid n2 (p2, f2, h2). done-Returns Q _ _ (refl, (refl, h2 ∙ h1))))
