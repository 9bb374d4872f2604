-- ===== src/EventBuffer/Wanted.antt =====
-- `recv_data` takes the first pending data event that passes its three filters.
use veil_python_stack.Prelude.{
  ℕ, ◌≡◌, refl, subst, Bool, true, Option, none, some, List, [], arith, nat_eq,
}
use veil_python_stack.Events.{
  Event, new_connection_event, data_event, disconnected_event, error_event,
}
use veil_python_stack.EventBuffer.{
  Channel, pending, enough, recv_data, matches_data, agrees, passes,
}
use veil_python_stack.EventBuffer.Select.{Ends, recv_loop-Ends}

-- A filter that is given holds of the value.
unfoldable pub Fits : Option ℕ → ℕ → Type 0
Fits none n = Unit {0}
Fits (some wanted) n = n ≡ wanted

unfoldable pub Accepts : Option (Event → Bool) → Event → Type 0
Accepts none e = Unit {0}
Accepts (some predicate) e = predicate e ≡ true

-- What a caller of `recv_data` asks for: a data event of its session and its stream that its
-- predicate accepts, as far as these three are given
unfoldable pub IsWanted : Option ℕ → Option ℕ → Option (Event → Bool) → Event → Type 0
IsWanted session_id stream_id predicate e =
    (s i : ℕ) × (d : List ℕ) × (e ≡ data_event s i d)
    × Fits session_id s
    × Fits stream_id i
    × Accepts predicate e

agrees-Fits : (wanted : Option ℕ) (n : ℕ) → agrees wanted n ≡ true → Fits wanted n
unfolding Fits
agrees-Fits none n h = tt
agrees-Fits (some w) n h = (nat_eq.beq_iff n w).0 h

Fits-agrees : (wanted : Option ℕ) (n : ℕ) → Fits wanted n → agrees wanted n ≡ true
unfolding Fits
Fits-agrees none n h = refl
Fits-agrees (some w) n h = (nat_eq.beq_iff n w).1 h

passes-Accepts :
    (predicate : Option (Event → Bool)) (e : Event)
    → passes predicate e ≡ true
    → Accepts predicate e
unfolding Accepts
passes-Accepts none e h = tt
passes-Accepts (some p) e h = h

Accepts-passes :
    (predicate : Option (Event → Bool)) (e : Event)
    → Accepts predicate e
    → passes predicate e ≡ true
unfolding Accepts
Accepts-passes none e h = refl
Accepts-passes (some p) e h = h

module _ (session_id stream_id : Option ℕ) (predicate : Option (Event → Bool)) where
  matches_data-IsWanted :
      (e : Event)
      → matches_data session_id stream_id predicate e ≡ true
      → IsWanted session_id stream_id predicate e
  unfolding matches_data IsWanted
  matches_data-IsWanted (data_event s i d) h = (
    s,
    i,
    d,
    refl,
    agrees-Fits session_id s (ground (arith, h)),
    agrees-Fits stream_id i (ground (arith, h)),
    passes-Accepts predicate (data_event s i d) (ground (arith, h)),
  )
  matches_data-IsWanted (new_connection_event s a p) h = ground (arith, h)
  matches_data-IsWanted (disconnected_event s r) h = ground (arith, h)
  matches_data-IsWanted (error_event s m) h = ground (arith, h)

  IsWanted-matches_data :
      (e : Event)
      → IsWanted session_id stream_id predicate e
      → matches_data session_id stream_id predicate e ≡ true
  unfolding matches_data IsWanted
  IsWanted-matches_data e (s, i, d, is_data, session, stream, accepted) =
      rw
        (
          is_data,
          Fits-agrees session_id s session,
          Fits-agrees stream_id i stream,
          Accepts-passes predicate (data_event s i d) (subst (Accepts predicate) is_data accepted),
        )
        refl

-- Whatever the schedule of waits, `recv_data` ends without running out of fuel. It returns the first
-- pending event that matches, and all other events stay pending in their order; or it times out or is
-- cancelled, then everything is pending as before and nothing in the backlog matches; or it is still
-- suspended at the end of the schedule, then it holds every event, and none matches. The events that
-- match are exactly the data events whose session is the one asked for, if one is, whose stream is
-- the one asked for, if one is, and which the predicate accepts, if there is one.
pub recv_data-Ends :
    (timed : Bool) (session_id stream_id : Option ℕ) (predicate : Option (Event → Bool))
    (c : Channel)
    → Ends
        (matches_data session_id stream_id predicate)
        (pending c)
        (recv_data timed session_id stream_id predicate c)
      × ((e : Event)
          → matches_data session_id stream_id predicate e ≡ true
          → IsWanted session_id stream_id predicate e)
      × ((e : Event)
          → IsWanted session_id stream_id predicate e
          → matches_data session_id stream_id predicate e ≡ true)
unfolding recv_data
recv_data-Ends timed session_id stream_id predicate c = (
  recv_loop-Ends (matches_data session_id stream_id predicate) timed (enough c) [] c tt
      (omega arith),
  matches_data-IsWanted session_id stream_id predicate,
  IsWanted-matches_data session_id stream_id predicate,
)
