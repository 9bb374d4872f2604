-- ===== src/Linux/Routes.antt =====
-- veil_core/linux_client_app.py: the route to the server below the tunnel.
use veil_python_stack.Prelude.{
  ℕ, zero, suc, ◌+◌, String, Bool, true, false, Option, none, some, List, [], ◌∷◌, ◌++◌, leb,
  nat_eq, string_eq, ◌==◌, if◌then◌else◌, or_default,
}
use veil_python_stack.Prelude.Dict.{Dict, lookup}
use veil_python_stack.Errors.{Result, ok, err, ◌>>=◌, runtime_error}
use veil_python_stack.Text.{words}
use veil_python_stack.Config.Server.{word_after}
use veil_python_stack.Linux.{World, Act, branch, pause, lift, done, raise, ◌>>>◌, run_ip}

-- `result[key] = route[route.index(word) + 1]`, if the word is there
abbrev entry : String → Option (Result String) → Result (Dict String String)
entry key none = ok []
entry key (some (ok value)) = ok ((key, value) ∷ [])
entry key (some (err e)) = err e

abbrev with_device : String → Dict String String → Dict String String → Result (Dict String String)
with_device host [] rest = err (runtime_error "Could not determine underlay route")
with_device host (dev ∷ ds) rest = ok (("host", host) ∷ dev ∷ rest)

-- The dictionary, of the words that `ip route get` printed
unfoldable pub route_of : String → List String → Result (Dict String String)
unfolding word_after
route_of host route = entry "dev" (word_after "dev" route) >>= λ dev.
    entry "via" (word_after "via" route) >>= λ via.
    entry "src" (word_after "src" route) >>= λ src. with_device host dev (via ++ src)

-- `_route_info_for_host`
unfoldable pub route_info_for_host : World → String → Act (Dict String String)
unfolding run_ip words route_of
route_info_for_host w host = run_ip w true ("-4" ∷ "route" ∷ "get" ∷ host ∷ []) >>> λ c.
    lift (route_of host (words c.stdout))

unfoldable pub is_one_of : List String → String → Bool
is_one_of [] k = false
is_one_of (j ∷ js) k = if j == k then true else is_one_of js k

abbrev pub pinned : Act (Dict String String)
pinned = raise (Dict String String) (runtime_error "Underlay route is still pinned")

-- The loop of `_resolve_underlay_route`. Without fuel it ends as it does at the deadline.
unfoldable pub poll_route :
    World → (host : String) (excluded : List String) (deadline fuel : ℕ) → Act (Dict String String)
unfolding route_info_for_host lookup is_one_of
poll_route w host excluded deadline zero = pinned
poll_route w host excluded deadline (suc fuel) = route_info_for_host w host >>> λ route.
    if is_one_of excluded (or_default (lookup "dev" route) "")
    then branch (λ m. leb deadline (w.clock m.history)) pinned
        (pause 200 >>> λ slept. poll_route w host excluded deadline fuel)
    else done route

-- Rounds of 200 milliseconds up to a deadline after five seconds
abbrev pub route_rounds : ℕ
route_rounds = 26

-- `_resolve_underlay_route`
unfoldable pub resolve_underlay_route : World → String → List String → Act (Dict String String)
unfolding poll_route
resolve_underlay_route w host excluded m =
    poll_route w host excluded (w.clock m.history + 5000) route_rounds m
