-- ===== src/Windows/Invariant.antt =====
-- In every run of the agent's loop it holds all of a tunnel's resources or none.
use veil_python_stack.Prelude.{
  ℕ, ◌≡◌, refl, ◌∙◌, String, string_eq, Option, none, some, Bool-cases, inl, inr,
}
use veil_python_stack.Errors.{Result, ok, err}
use veil_python_stack.Windows.State.{Files}
use veil_python_stack.Windows.Agent.{
  new_agent, Agent, Outside, Link, update_state, consume_command_if_present,
}
use veil_python_stack.Windows.Rounds.{
  monitor_connection, monitor_with, check_link, pending, is_none, connect_if, attempt_round,
  recovered, round, Event, connection_ended, pump_failed, command_written, meanwhile, closed_with,
  start_agent,
}
use veil_python_stack.Windows.Tidy.{
  IsFree, IsTidy, Succeeds, OnOk, followed-OnOk, Succeeds-OnOk, if-OnOk, disconnect-IsFree,
}
use veil_python_stack.Windows.Connecting.{connect_if-OnOk, consume-OnOk}

-- No exception, and a tidy agent
abbrev Survives : Result (Unit {0}) × Agent → Type 0
Survives r = (r.0 ≡ ok tt) × IsTidy r.1

from_free : (r : Result (Unit {0}) × Agent) → Succeeds r IsFree → Survives r
from_free (ok u, a) h = (refl, inl h)
from_free (err e, a) h = elim h [ ]

pending-OnOk :
    (o : Outside) (reason : String) (r : Result (Unit {0}) × Agent)
    → Succeeds r IsFree
    → OnOk (pending o reason r) IsTidy
unfolding update_state
pending-OnOk o reason (err e, a) h = tt
pending-OnOk o reason (ok u, a) h = elim (Bool-cases a.should_be_connected) [
  | inl y ↦ rw y (inl h)
  | inr n ↦ rw n (inl h)
]

check_link-OnOk :
    (o : Outside) (r : Option String) (a : Agent)
    → o.cleanup ≡ ok tt
    → IsTidy a
    → OnOk (check_link o r a) IsTidy
check_link-OnOk o none a cleans h = h
check_link-OnOk o (some reason) a cleans h = pending-OnOk o _ _ (disconnect-IsFree o _ a cleans)

monitor_with-OnOk :
    (o : Outside) (c : Option Link) (a : Agent)
    → o.cleanup ≡ ok tt
    → IsTidy a
    → OnOk (monitor_with o c a) IsTidy
unfolding update_state
monitor_with-OnOk o none a cleans h = elim (Bool-cases a.should_be_connected) [
  | inl y ↦ rw y h
  | inr n ↦ rw n h
]
monitor_with-OnOk o (some link) a cleans h =
    if-OnOk IsTidy a.should_be_connected _ _ (check_link-OnOk o link.close_reason a cleans h)
      (Succeeds-OnOk IsTidy _ (disconnect-IsFree o "command_down" a cleans) (λ b f. inl f))

monitor-OnOk :
    (o : Outside) (a : Agent) → o.cleanup ≡ ok tt → IsTidy a → OnOk (monitor_connection o a) IsTidy
unfolding monitor_connection
monitor-OnOk o a cleans h = monitor_with-OnOk o a.connection a cleans h

recovered-Succeeds :
    (o : Outside) (r : Result (Unit {0}) × Agent)
    → o.cleanup ≡ ok tt
    → OnOk r IsTidy
    → Survives (recovered o r)
recovered-Succeeds o (ok u, a) cleans h = (refl, h)
recovered-Succeeds o (err e, a) cleans h =
    from_free _ (disconnect-IsFree o "agent_loop_error" a cleans)

-- A round from a tidy agent, in which the network's cleanup raises nothing, raises nothing and ends in a
-- tidy agent: it holds connection, client, adapter, network configuration and pumps, or none of them.
pub round-IsTidy :
    (o : Outside) (a : Agent)
    → o.cleanup ≡ ok tt
    → IsTidy a
    → ((round o a).0 ≡ ok tt) × IsTidy (round o a).1
unfolding round
round-IsTidy o a cleans h = recovered-Succeeds o (attempt_round o a) cleans (
    followed-OnOk IsTidy _ (monitor_connection o)
      (followed-OnOk IsTidy (consume_command_if_present o a) (connect_if o) (consume-OnOk o a h)
        (λ b t. connect_if-OnOk o b cleans t))
      (λ b t. monitor-OnOk o b cleans t))

-- What may happen while the network's cleanup raises nothing
pub data Step : Agent → Agent → Type 0 where
  looped : (o : Outside) (a : Agent) → o.cleanup ≡ ok tt → Step a (round o a).1
  happened : (e : Event) (a : Agent) → Step a (meanwhile e a)

pub data Reach (a : Agent) : Agent → Type 0 where
  here : Reach a a
  next : {b c : Agent} → Reach a b → Step b c → Reach a c

closed_with-is_none :
    (reason : String) (c : Option Link) → is_none (closed_with reason c) ≡ is_none c
closed_with-is_none reason none = refl
closed_with-is_none reason (some link) = refl

closed_with-none : (reason : String) (c : Option Link) → c ≡ none → closed_with reason c ≡ none
closed_with-none reason c h = rw h refl

meanwhile-IsTidy : (e : Event) (a : Agent) → IsTidy a → IsTidy (meanwhile e a)
unfolding meanwhile update_state
meanwhile-IsTidy (connection_ended reason) a (inl (c, client, wintun, network, pumps)) =
    inl (closed_with-none reason a.connection c, client, wintun, network, pumps)
meanwhile-IsTidy (connection_ended reason) a (inr (c, client, wintun, network, pumps)) =
    inr (closed_with-is_none reason a.connection ∙ c, client, wintun, network, pumps)
meanwhile-IsTidy (pump_failed o event error) a h = h
meanwhile-IsTidy (command_written now command config) a h = h

Step-IsTidy : {a b : Agent} → Step a b → IsTidy a → IsTidy b
Step-IsTidy (looped o a cleans) h = (round-IsTidy o a cleans h).1
Step-IsTidy (happened e a) h = meanwhile-IsTidy e a h

-- A state that the agent reaches from its start, by rounds whose network cleanup raises nothing and by
-- what happens in between, is tidy: connection, client, adapter, network configuration and pump tasks
-- are all there or all gone.
pub Reach-IsTidy :
    (o : Outside) (pid : ℕ) (files : Files) (a : Agent)
    → Reach (start_agent o (new_agent pid files)) a
    → IsTidy a
unfolding start_agent update_state
Reach-IsTidy o pid files a here = inl (refl, refl, refl, refl, refl)
Reach-IsTidy o pid files a (next r s) = Step-IsTidy s (Reach-IsTidy o pid files _ r)
