-- ===== src/Linux/Suspended.antt =====
-- A service that `start_runtime` suspends is started again, by `stop_runtime` or after a failure.
pub mod Suspend
pub mod Whole
use veil_python_stack.Prelude.{
  ◌≡◌, refl, subst, String, Bool, true, false, not, ◌&&◌, ◌||◌, Option, none, some, List, [], ◌∷◌,
  arith, string_eq, ◌==◌, if◌then◌else◌,
}
use veil_python_stack.Errors.{Result, ok, err}
use veil_python_stack.Linux.{World, Conflict, Machine, Act, after, ◌>>>◌, done}
use veil_python_stack.Linux.Quiet.{IsQuiet, AreAlike, left_stopped}

-- Whether restoring these starts the service
unfoldable pub restores : String → List Conflict → Bool
restores s [] = false
restores s (c ∷ cs) = (c.was_active && c.service == s) || restores s cs

-- What holds of the value and the machine, if no exception is raised
unfoldable pub Returns : {A : Type 0} → Result A × Machine → (A → Machine → Type 0) → Type 0
Returns (ok a, m) P = P a m
Returns (err e, m) P = Unit {0}

module _ {A : Type 0} {B : Type 0} where
  pub after-Returns :
      (P : A → Machine → Type 0) (Q : B → Machine → Type 0) (r : Result A × Machine)
      (rest : A → Act B)
      → Returns r P
      → ((a : A) (m : Machine) → P a m → Returns (rest a m) Q)
      → Returns (after r rest) Q
  unfolding Returns
  after-Returns P Q (ok a, m) rest h step = step a m h
  after-Returns P Q (err e, m) rest h step = tt

module _ {A : Type 0} where
  pub done-Returns : (P : A → Machine → Type 0) (a : A) (m : Machine) → P a m → Returns (ok a, m) P
  unfolding Returns
  done-Returns P a m h = h

  pub weaken-Returns :
      (P Q : A → Machine → Type 0) (r : Result A × Machine)
      → Returns r P
      → ((a : A) (m : Machine) → P a m → Q a m)
      → Returns r Q
  unfolding Returns
  weaken-Returns P Q (ok a, m) h step = step a m h
  weaken-Returns P Q (err e, m) h step = tt

  pub ok-Returns :
      (P : A → Machine → Type 0) (r : Result A × Machine) (a : A) (m : Machine)
      → r ≡ (ok a, m)
      → Returns r P
      → P a m
  unfolding Returns
  ok-Returns P r a m e h = subst (λ x. Returns x P) e h

  any-Returns : (P : Machine → Type 0) (r : Result A × Machine) → P r.1 → Returns r (λ a n. P n)
  unfolding Returns
  any-Returns P (ok a, m) h = h
  any-Returns P (err e, m) h = tt

  pub quiet-Returns :
      (s : String) (act : Act A) (m : Machine)
      → IsQuiet s act
      → Returns (act m) (λ a n. AreAlike s m n)
  unfolding IsQuiet
  quiet-Returns s act m q = any-Returns (λ n. AreAlike s m n) (act m) (q m)
