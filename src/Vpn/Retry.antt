-- ===== src/Vpn/Retry.antt =====
-- The retry loop of the handshake ends.
use veil_python_stack.Prelude.{
  ℕ, ◌≡◌, refl, true, Option, some, List, [], ◌∷◌, ◌++◌, String, leb, Bool-cases, inl, inr,
}
use veil_python_stack.Prelude.Dict.{Dict}
use veil_python_stack.Errors.{Result, ok, err}
use veil_python_stack.Message.{Value, Json}
use veil_python_stack.Vpn.{Connection, Net, send_control}
use veil_python_stack.Vpn.Start.{
  Reply, replied, gave_up, was_cancelled, Attempt, settle_attempt, await_ready,
}

abbrev Returns : Option (Result (Dict String Value) × Connection) → Type 0
Returns o = (r : Result (Dict String Value) × Connection) × (o ≡ some r)

module _ (net : Net) (json : Json) where
  -- A round ends, or goes on as the next one does.
  settle_attempt-Returns :
      (deadline asked : ℕ) (reply : Reply)
      (again : Option (Result (Dict String Value) × Connection))
      (sending : Result (Unit {0}) × Connection)
      → Returns again
      → Returns (settle_attempt net json deadline asked reply again sending)
  settle_attempt-Returns deadline asked reply again (err e, c) h = (_, refl)
  settle_attempt-Returns deadline asked (replied raw) again (ok u, c) h =
      elim (Bool-cases (leb deadline asked)) [ inl y ↦ rw y (_, refl) | inr n ↦ rw n (_, refl) ]
  settle_attempt-Returns deadline asked was_cancelled again (ok u, c) h =
      elim (Bool-cases (leb deadline asked)) [ inl y ↦ rw y (_, refl) | inr n ↦ rw n (_, refl) ]
  settle_attempt-Returns deadline asked (gave_up t) again (ok u, c) h =
      elim (Bool-cases (leb deadline asked)) [
        | inl y ↦ rw y (_, refl)
        | inr n ↦
            rw n (elim (Bool-cases (leb deadline t)) [ inl y ↦ rw y (_, refl) | inr n' ↦ rw n' h ])
      ]

  settle_attempt-late :
      (deadline asked : ℕ) (reply : Reply)
      (again : Option (Result (Dict String Value) × Connection))
      (sending : Result (Unit {0}) × Connection)
      → leb deadline asked ≡ true
      → Returns (settle_attempt net json deadline asked reply again sending)
  settle_attempt-late deadline asked reply again (err e, c) h = (_, refl)
  settle_attempt-late deadline asked (replied raw) again (ok u, c) h = rw h (_, refl)
  settle_attempt-late deadline asked was_cancelled again (ok u, c) h = rw h (_, refl)
  settle_attempt-late deadline asked (gave_up t) again (ok u, c) h = rw h (_, refl)

  -- Whatever the attempts before it bring, the retry loop has returned or raised by the first
  -- attempt that finds the deadline reached.
  pub await_ready_ends :
      (deadline : ℕ) (before after : List Attempt) (late : Attempt) (message : Dict String Value)
      (c : Connection)
      → leb deadline late.asked_at ≡ true
      → Returns (await_ready net json deadline (before ++ late ∷ after) message c)
  unfolding await_ready
  await_ready_ends deadline [] after late message c h =
      settle_attempt-late deadline late.asked_at _ _ (send_control net json message c) h
  await_ready_ends deadline (a ∷ before) after late message c h =
      settle_attempt-Returns deadline a.asked_at _ _ (send_control net json message c)
        (await_ready_ends deadline before after late message _ h)
