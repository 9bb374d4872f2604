-- ===== src/Linux/Waiting.antt =====
-- The rounds that `_wait_for_tun` gets are enough.
use veil_python_stack.Prelude.{
  ℕ, zero, suc, ◌+◌, ◌*◌, ◌≤◌, ◌≡◌, refl, String, false, List, arith, ltb, nat_eq, ◌==◌, Bool-cases,
  inl, inr, ◌∷◌, [],
}
use veil_python_stack.Linux.{World, Command, Machine, run, sleep, issue, run_ip, run_command}
use veil_python_stack.Linux.Start.{poll_tun, tun_rounds, wait_for_tun}

-- The machine after `ip link show` and a sleep
abbrev slept : String → Machine → Machine
slept name m = issue (sleep 500) (issue (run ("ip" ∷ "link" ∷ "show" ∷ "dev" ∷ name ∷ [])) m)

module _ (w : World) (steady : (c : Command) (h : List Command) → w.clock h ≤ w.clock (c ∷ h))
    (sleeps : (n : ℕ) (h : List Command) → w.clock h + n ≤ w.clock (sleep n ∷ h)) where
  poll_tun_enough :
      (name : String) (deadline fuel more : ℕ) (m : Machine)
      → deadline ≤ w.clock m.history + 500 * fuel
      → poll_tun w name deadline (more + fuel) m ≡ poll_tun w name deadline fuel m
  unfolding poll_tun run_ip run_command
  poll_tun_enough name deadline zero zero m late = refl
  poll_tun_enough name deadline zero (suc more) m late =
      let over : ltb (w.clock m.history) deadline ≡ false = ground (arith, late) in
      let e : suc more + zero ≡ suc more = omega arith in rw (e, over) refl
  poll_tun_enough name deadline (suc fuel) more m late =
      let before = sleeps 500 (run ("ip" ∷ "link" ∷ "show" ∷ "dev" ∷ name ∷ []) ∷ m.history) in
      let after = steady (run ("ip" ∷ "link" ∷ "show" ∷ "dev" ∷ name ∷ [])) m.history in
      let rest =
        poll_tun_enough name deadline fuel more (slept name m)
          (omega (arith, before, after, late)) in
      let e : more + suc fuel ≡ suc (more + fuel) = omega arith in
      rw e (elim (Bool-cases (ltb (w.clock m.history) deadline)) [
        | inl y ↦
            rw y
              (elim (Bool-cases (
                (w.completed
                  (run ("ip" ∷ "link" ∷ "show" ∷ "dev" ∷ name ∷ []) ∷ m.history)).returncode
                == 0)) [ inl z ↦ rw z refl | inr n ↦ rw n rest ])
        | inr n ↦ rw n refl
      ])

  -- On a machine whose clock does not go back and that sleeps at least as long as it is asked to: more
  -- rounds would not change how `_wait_for_tun` ends.
  pub wait_for_tun_enough :
      (name : String) (more : ℕ) (m : Machine)
      → poll_tun w name (w.clock m.history + 30000) (more + tun_rounds) m ≡ wait_for_tun w name m
  unfolding wait_for_tun
  wait_for_tun_enough name more m =
      poll_tun_enough name (w.clock m.history + 30000) tun_rounds more m (omega arith)
