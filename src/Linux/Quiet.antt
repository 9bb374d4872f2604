-- ===== src/Linux/Quiet.antt =====
-- Parts of the program that change neither the runtime files nor which service is stopped.
pub mod Calls
use veil_python_stack.Prelude.{
  ℕ, zero, suc, ◌≡◌, refl, sym, ◌∙◌, String, Bool, true, false, not, ◌&&◌, ◌||◌, Option, none, some,
  List, [], ◌∷◌, arith, string_eq, nat_eq, ◌==◌, if◌then◌else◌, ltb, leb, or_default, Bool-cases,
  inl, inr,
}
use veil_python_stack.Prelude.Dict.{Dict, lookup}
use veil_python_stack.Errors.{Result, ok, err, Error}
use veil_python_stack.Linux.{
  World, Completed, Command, run, spawn, signal, sleep, Signal, Act, Machine, attempt, branch,
  pause, lift, done, raise, ◌>>>◌, after, run_command, run_ip, kill, issue, checked,
}

-- Whether these are the arguments `systemctl verb service`
abbrev pub is_systemctl : String → String → List String → Bool
is_systemctl verb service [] = false
is_systemctl verb service (p ∷ []) = false
is_systemctl verb service (p ∷ v ∷ []) = false
is_systemctl verb service (p ∷ v ∷ t ∷ []) = p == "systemctl" && (v == verb && t == service)
is_systemctl verb service (p ∷ v ∷ t ∷ u ∷ args) = false

-- Whether the last command that stopped or started the service stopped it; the newest stands first.
unfoldable pub left_stopped : String → List Command → Bool
left_stopped service [] = false
left_stopped service (run args ∷ history) =
    let rest = left_stopped service history in
    if is_systemctl "stop" service args
    then true
    else if is_systemctl "start" service args
    then false
    else rest
left_stopped service (spawn args ∷ history) = left_stopped service history
left_stopped service (signal s pid ∷ history) = left_stopped service history
left_stopped service (sleep n ∷ history) = left_stopped service history

abbrev pub AreAlike : String → Machine → Machine → Type 0
AreAlike s m n =
    (n.pid_file ≡ m.pid_file)
    × (n.state_file ≡ m.state_file)
    × (left_stopped s n.history ≡ left_stopped s m.history)

unfoldable pub IsQuiet {ℓ} : {A : Type ℓ} → String → Act A → Type 0
IsQuiet s act = (m : Machine) → AreAlike s m (act m).1

pub AreAlike-trans :
    (s : String) (m n o : Machine) → AreAlike s m n → AreAlike s n o → AreAlike s m o
AreAlike-trans s m n o (p, f, l) (p', f', l') = (p' ∙ p, f' ∙ f, l' ∙ l)

after-AreAlike :
    {A : Type 0} {B : Type 0} (s : String) (m : Machine) (r : Result A × Machine) (rest : A → Act B)
    → AreAlike s m r.1
    → ((a : A) → IsQuiet s (rest a))
    → AreAlike s m (after r rest).1
unfolding IsQuiet
after-AreAlike s m (ok a, n) rest h q = AreAlike-trans s m n (rest a n).1 h (q a n)
after-AreAlike s m (err e, n) rest h q = h

module _ {A : Type 0} {B : Type 0} (s : String) where
  pub bind-IsQuiet :
      (act : Act A) (rest : A → Act B)
      → IsQuiet s act
      → ((a : A) → IsQuiet s (rest a))
      → IsQuiet s (act >>> rest)
  unfolding IsQuiet
  bind-IsQuiet act rest h q m = after-AreAlike s m (act m) rest (h m) q

  pub attempt-IsQuiet :
      (act : Act A) (handler : Result A → Act B)
      → IsQuiet s act
      → ((r : Result A) → IsQuiet s (handler r))
      → IsQuiet s (attempt act handler)
  unfolding IsQuiet
  attempt-IsQuiet act handler h q m = AreAlike-trans s m (act m).1 _ (h m) (q (act m).0 (act m).1)

pub raise-IsQuiet : (s : String) (A : Type 0) (e : Error) → IsQuiet s (raise A e)
unfolding IsQuiet
raise-IsQuiet s A e m = (refl, refl, refl)

module _ {A : Type 0} (s : String) where
  pub lift-IsQuiet : (r : Result A) → IsQuiet s (lift r)
  unfolding IsQuiet
  lift-IsQuiet r m = (refl, refl, refl)

  pub done-IsQuiet : (a : A) → IsQuiet s (done a)
  unfolding IsQuiet
  done-IsQuiet a m = (refl, refl, refl)

  pub if-IsQuiet :
      (b : Bool) (act other : Act A)
      → IsQuiet s act
      → IsQuiet s other
      → IsQuiet s (if b then act else other)
  if-IsQuiet true act other h g = h
  if-IsQuiet false act other h g = g

  pub branch-IsQuiet :
      (test : Machine → Bool) (act other : Act A)
      → IsQuiet s act
      → IsQuiet s other
      → IsQuiet s (branch test act other)
  unfolding IsQuiet
  branch-IsQuiet test act other h g m = elim (Bool-cases (test m)) [
    | inl y ↦ rw y (h m)
    | inr n ↦ rw n (g m)
  ]

pub pause-IsQuiet : (s : String) (n : ℕ) → IsQuiet s (pause n)
unfolding IsQuiet left_stopped
pause-IsQuiet s n m = (refl, refl, refl)

pub run_command-IsQuiet :
    (s : String) (w : World) (check : Bool) (args : List String)
    → (is_systemctl "stop" s args ≡ false)
    → (is_systemctl "start" s args ≡ false)
    → IsQuiet s (run_command w check args)
unfolding IsQuiet run_command left_stopped
run_command-IsQuiet s w check args stop start m = (refl, refl, ground (arith, stop, start))

not-systemctl : (verb s : String) (args : List String) → is_systemctl verb s ("ip" ∷ args) ≡ false
not-systemctl verb s [] = refl
not-systemctl verb s (v ∷ []) = refl
not-systemctl verb s (v ∷ t ∷ []) = refl
not-systemctl verb s (v ∷ t ∷ u ∷ args) = refl

pub run_ip-IsQuiet :
    (s : String) (w : World) (check : Bool) (args : List String) → IsQuiet s (run_ip w check args)
unfolding run_ip
run_ip-IsQuiet s w check args =
    run_command-IsQuiet s w check ("ip" ∷ args) (not-systemctl "stop" s args)
      (not-systemctl "start" s args)

pub kill-IsQuiet : (s : String) (w : World) (g : Signal) (pid : ℕ) → IsQuiet s (kill w g pid)
unfolding IsQuiet kill left_stopped
kill-IsQuiet s w g pid m = (refl, refl, refl)

pub ruleset quiet = (
  bind-IsQuiet, attempt-IsQuiet, lift-IsQuiet, raise-IsQuiet, done-IsQuiet, if-IsQuiet,
  branch-IsQuiet, pause-IsQuiet, run_ip-IsQuiet, kill-IsQuiet,
)
