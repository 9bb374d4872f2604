-- ===== src/Windows/Tidy.antt =====
-- The agent holds all of a tunnel's resources or none.
use veil_python_stack.Prelude.{
  string_eq, ◌⊎◌, ap, ◌≡◌, refl, ◌∙◌, String, Bool, true, false, Option, none, some, List, [], ◌∷◌,
  if◌then◌else◌,
}
use veil_python_stack.Errors.{Result, ok, err}
use veil_python_stack.Prelude.Dict.{Dict, lookup, lookup-merge_first}
use veil_python_stack.Message.{Value, boolean, text}
use veil_python_stack.Dataclass.{Instance}
use veil_python_stack.Windows.State.{read_runtime_state}
use veil_python_stack.Windows.Agent.{
  cleared, log_call, network_cleanup, refreshed, Agent, Outside, Link, Call, update_state,
  disconnect, clean, close_wintun, stop_client, close_connection, reset,
}
use veil_python_stack.Windows.Rounds.{is_none, followed}

-- No connection, client, adapter, network configuration or pump
abbrev pub IsFree : Agent → Type 0
IsFree a =
    (a.connection ≡ none)
    × (a.has_client ≡ false)
    × (a.has_wintun ≡ false)
    × (a.network_state ≡ none)
    × (a.has_pumps ≡ false)

-- All of them
abbrev pub IsUp : Agent → Type 0
IsUp a =
    (is_none a.connection ≡ false)
    × (a.has_client ≡ true)
    × (a.has_wintun ≡ true)
    × (is_none a.network_state ≡ false)
    × (a.has_pumps ≡ true)

abbrev pub IsTidy : Agent → Type 0
IsTidy a = IsFree a ⊎ IsUp a

-- These calls change nothing but the calls that were made.
close_connection-calls :
    (reason : String) (c : Option Link) (a : Agent)
    → close_connection reason c a ≡ record a { calls = (close_connection reason c a).calls }
close_connection-calls reason none a = refl
close_connection-calls reason (some link) a = refl

stop_client-calls :
    (b : Bool) (a : Agent) → stop_client b a ≡ record a { calls = (stop_client b a).calls }
stop_client-calls true a = refl
stop_client-calls false a = refl

close_wintun-calls :
    (b : Bool) (a : Agent) → close_wintun b a ≡ record a { calls = (close_wintun b a).calls }
close_wintun-calls true a = refl
close_wintun-calls false a = refl

-- What `_disconnect` gives to the network's cleanup
abbrev closing : String → Agent → Agent
closing reason a = close_wintun a.has_wintun (
    stop_client a.has_client
      (close_connection reason a.connection (record a { has_pumps = false })))

closing-field :
    {A : Type 0} (field : Agent → A) (reason : String) (a : Agent)
    → ((b : Agent) (calls : List Call) → field (record b { calls = calls }) ≡ field b)
    → field (closing reason a) ≡ field (record a { has_pumps = false })
closing-field field reason a silent =
    (ap field (close_wintun-calls a.has_wintun _) ∙ silent _ _)
    ∙ ((ap field (stop_client-calls a.has_client _) ∙ silent _ _)
        ∙ (ap field (close_connection-calls reason a.connection _) ∙ silent _ _))

-- What holds of an agent after the code succeeded
abbrev pub Succeeds : Result (Unit {0}) × Agent → (Agent → Type 0) → Type 0
Succeeds (ok u, a) P = P a
Succeeds (err e, a) P = ⊥

clean-Succeeds :
    (o : Outside) (reason : String) (c : Option Instance) (a : Agent)
    → o.cleanup ≡ ok tt
    → a.has_pumps ≡ false
    → Succeeds (reset o reason (clean o c a)) IsFree
unfolding update_state
clean-Succeeds o reason none a h p = (refl, refl, refl, refl, p)
clean-Succeeds o reason (some config) a h p = rw h (refl, refl, refl, refl, p)

-- Of a cleanup that succeeds: disconnecting raises nothing and leaves nothing held.
pub disconnect-IsFree :
    (o : Outside) (reason : String) (a : Agent)
    → o.cleanup ≡ ok tt
    → Succeeds (disconnect o reason a) IsFree
unfolding disconnect
disconnect-IsFree o reason a h =
    clean-Succeeds o reason a.active_config (closing reason a) h
      (closing-field (λ b. b.has_pumps) reason a (λ b calls. refl))

-- Not connected, as the state file says too, and without the wish to be
abbrev pub IsIdle : Agent → Type 0
IsIdle a =
    (a.connection ≡ none)
    × (a.should_be_connected ≡ false)
    × (lookup "connected" (read_runtime_state a.files) ≡ some (boolean false))

pub update_state-connected :
    (o : Outside) (v : Value) (rest : Dict String Value) (a : Agent)
    → lookup "connected" rest ≡ none
    → lookup "connected" (read_runtime_state (update_state o (("connected", v) ∷ rest) a).files)
      ≡ some v
unfolding update_state
update_state-connected o v rest a h = lookup-merge_first "connected" v (refreshed o a) rest h

abbrev disconnected : String → Dict String Value
disconnected reason = ("last_event", text "disconnected") ∷ ("last_error", text reason) ∷ []

clean-IsIdle :
    (o : Outside) (reason : String) (c : Option Instance) (a : Agent)
    → o.cleanup ≡ ok tt
    → a.should_be_connected ≡ false
    → Succeeds (reset o reason (clean o c a)) IsIdle
unfolding update_state lookup
clean-IsIdle o reason none a h p =
    (refl, p, update_state-connected o (boolean false) (disconnected reason) (cleared a) refl)
clean-IsIdle o reason (some config) a h p = rw h (
  refl,
  p,
  update_state-connected o (boolean false) (disconnected reason)
      (cleared (log_call network_cleanup a)) refl,
)

-- Of an agent that does not want to be connected, and a cleanup that succeeds
pub disconnect-IsIdle :
    (o : Outside) (reason : String) (a : Agent)
    → o.cleanup ≡ ok tt
    → a.should_be_connected ≡ false
    → Succeeds (disconnect o reason a) IsIdle
unfolding disconnect
disconnect-IsIdle o reason a h wish =
    clean-IsIdle o reason a.active_config (closing reason a) h
      (closing-field (λ b. b.should_be_connected) reason a (λ b calls. refl) ∙ wish)

-- What holds of an agent if no exception is raised
abbrev pub OnOk : Result (Unit {0}) × Agent → (Agent → Type 0) → Type 0
OnOk (ok u, a) P = P a
OnOk (err e, a) P = Unit {0}

pub followed-OnOk :
    (P : Agent → Type 0) (r : Result (Unit {0}) × Agent) (next : Agent → Result (Unit {0}) × Agent)
    → OnOk r P
    → ((a : Agent) → P a → OnOk (next a) P)
    → OnOk (followed r next) P
followed-OnOk P (ok u, a) next h step = step a h
followed-OnOk P (err e, a) next h step = tt

pub Succeeds-OnOk :
    (P : Agent → Type 0) (r : Result (Unit {0}) × Agent)
    → Succeeds r IsFree
    → ((a : Agent) → IsFree a → P a)
    → OnOk r P
Succeeds-OnOk P (ok u, a) h step = step a h
Succeeds-OnOk P (err e, a) h step = tt

pub if-OnOk :
    (P : Agent → Type 0) (b : Bool) (r r' : Result (Unit {0}) × Agent)
    → OnOk r P
    → OnOk r' P
    → OnOk (if b then r else r') P
if-OnOk P true r r' h g = h
if-OnOk P false r r' h g = g
