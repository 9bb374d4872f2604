-- ===== src/Windows/Commands.antt =====
-- What the agent does with the commands "up" and "down".
use veil_python_stack.Prelude.{
  ◌≡◌, refl, ap, sym, subst, ◌∙◌, String, Bool, true, false, Option, none, some, [], ◌∷◌, arith,
  string_eq, ◌==◌, if◌then◌else◌,
}
use veil_python_stack.Prelude.Dict.{lookup, beq_refl}
use veil_python_stack.Errors.{Result, ok, err}
use veil_python_stack.Message.{text, boolean, dict-fields, Json, truthy, str_of, str_or}
use veil_python_stack.Dataclass.{Instance, construct}
use veil_python_stack.Config.Windows.{windows_client_config}
use veil_python_stack.Windows.State.{write_runtime_command}
use veil_python_stack.Windows.Agent.{
  Agent, Outside, Link, update_state, consume_command_if_present, obey,
}
use veil_python_stack.Windows.Rounds.{
  round, meanwhile, command_written, attempt_round, monitor_connection, monitor_with, recovered,
}
use veil_python_stack.Windows.Tidy.{IsIdle, Succeeds, disconnect-IsIdle, update_state-connected}

-- The agent after another process wrote a command
abbrev pub commanded : String → String → Instance → Agent → Agent
commanded now command config a = meanwhile (command_written now command config) a

unwished :
    (wish : Bool) (r r' : Result (Unit {0}) × Agent)
    → wish ≡ false
    → Succeeds r' IsIdle
    → Succeeds (if wish then r else r') IsIdle
unwished wish r r' h s = subst (λ w. Succeeds (if w then r else r') IsIdle) (sym h) s

abbrev idle : Outside → Agent → Agent
idle o a = update_state o (("connected", boolean false) ∷ ("last_event", text "idle") ∷ []) a

idle-IsIdle :
    (o : Outside) (wish : Bool) (a : Agent)
    → wish ≡ false
    → a.connection ≡ none
    → a.should_be_connected ≡ false
    → IsIdle (if wish then a else idle o a)
unfolding update_state lookup
idle-IsIdle o wish a h there unwanted =
    subst (λ w. IsIdle (if w then a else idle o a)) (sym h)
      (
        there,
        unwanted,
        update_state-connected o (boolean false) (("last_event", text "idle") ∷ []) a refl,
      )

monitor_with-IsIdle :
    (o : Outside) (c : Option Link) (a : Agent)
    → o.cleanup ≡ ok tt
    → a.connection ≡ c
    → a.should_be_connected ≡ false
    → Succeeds (monitor_with o c a) IsIdle
monitor_with-IsIdle o none a cleans there wish =
    idle-IsIdle o a.should_be_connected a wish there wish
monitor_with-IsIdle o (some link) a cleans there wish =
    unwished a.should_be_connected _ _ wish (disconnect-IsIdle o "command_down" a cleans wish)

recovered-IsIdle :
    (o : Outside) (r : Result (Unit {0}) × Agent)
    → Succeeds r IsIdle
    → ((recovered o r).0 ≡ ok tt) × IsIdle (recovered o r).1
recovered-IsIdle o (ok u, a) h = (refl, h)
recovered-IsIdle o (err e, a) h = elim h [ ]

str_or-text : (json : Json) (s : String) → str_or json "" (some (text s)) ≡ s
unfolding str_or truthy str_of
str_or-text json s = ground (arith, string_eq.beq_iff s "")

-- What taking a new command gives
consume-commanded :
    (o : Outside) (now command : String) (config c : Instance) (a : Agent)
    → (now == a.last_command_ts) ≡ false
    → construct windows_client_config config ≡ ok c
    → consume_command_if_present o (commanded now command config a) ≡ (
      ok tt,
      obey o (some (text command)) (record (commanded now command config a) {
        last_command_ts = now;
        active_config = some c;
      }),
    )
unfolding consume_command_if_present meanwhile write_runtime_command lookup
consume-commanded o now command config c a new built =
    rw (str_or-text o.json now, new, dict-fields config, built) refl

-- The agent once it has taken a command "down"
abbrev downed : Outside → String → Instance → Instance → Agent → Agent
downed o now config c a =
    obey o (some (text "down"))
      (record (commanded now "down" config a) { last_command_ts = now; active_config = some c })

-- A command "down" of another second than the last command's, with a configuration that can be read:
-- the agent's next round, if the network's cleanup raises nothing, raises nothing, and after it the
-- agent has no connection, does not want one, and its state file says so.
pub round-IsIdle :
    (o : Outside) (now : String) (config c : Instance) (a : Agent)
    → o.cleanup ≡ ok tt
    → (now == a.last_command_ts) ≡ false
    → construct windows_client_config config ≡ ok c
    → ((round o (commanded now "down" config a)).0 ≡ ok tt)
      × IsIdle (round o (commanded now "down" config a)).1
unfolding round monitor_connection update_state meanwhile
round-IsIdle o now config c a cleans new built =
    recovered-IsIdle o (attempt_round o (commanded now "down" config a)) (
      rw (consume-commanded o now "down" config c a new built)
        (monitor_with-IsIdle o a.connection (downed o now config c a) cleans refl refl))

-- A command "down" that is written in the second of an "up" that the agent has taken is not obeyed: taking
-- it changes nothing, and the agent still wants to be connected.
pub consume-same_second :
    (o p : Outside) (now : String) (config c other : Instance) (a b : Agent)
    → (now == a.last_command_ts) ≡ false
    → construct windows_client_config config ≡ ok c
    → consume_command_if_present o (commanded now "up" config a) ≡ (ok tt, b)
    → (consume_command_if_present p (commanded now "down" other b)
        ≡ (ok tt, commanded now "down" other b))
      × (b.should_be_connected ≡ true)
unfolding consume_command_if_present meanwhile write_runtime_command lookup update_state
consume-same_second o p now config c other a b new built taken =
    let was = sym (consume-commanded o now "up" config c a new built) ∙ taken in
    let last = sym (ap (λ r. r.1.last_command_ts) was) in
    let same = ap (λ t. now == t) last ∙ beq_refl now in
    (rw (str_or-text p.json now, same) refl, sym (ap (λ r. r.1.should_be_connected) was))
