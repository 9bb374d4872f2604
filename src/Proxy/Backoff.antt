-- ===== src/Proxy/Backoff.antt =====
-- The reconnection delays.
use veil_python_stack.Prelude.{ℕ, ◌≤◌, List, [], ◌∷◌, arith, All, min, max, ◌*◌}
use veil_python_stack.Proxy.Bridge.{Outcome, finished, was_cancelled, raised, run_forever}

-- However the connections end, every delay that `run_forever` sleeps is at least `reconnect_delay`
-- and at most `max_reconnect_delay`, when the first is at most the second and the delay that the loop
-- starts with lies between them.
pub run_forever_delays :
    (least most delay : ℕ) (outcomes : List Outcome)
    → least ≤ most
    → least ≤ delay
    → delay ≤ most
    → All (λ d. (least ≤ d) × (d ≤ most)) (run_forever least most delay outcomes)
unfolding run_forever
run_forever_delays least most delay [] h lo hi = tt
run_forever_delays least most delay (finished ∷ rest) h lo hi =
    run_forever_delays least most least rest h (omega arith) h
run_forever_delays least most delay (was_cancelled ∷ rest) h lo hi = tt
run_forever_delays least most delay (raised ∷ rest) h lo hi = (
  (lo, hi),
  run_forever_delays least most (min most (max least (delay * 2))) rest h (ground arith)
      (ground arith),
)
