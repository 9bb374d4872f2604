-- ===== src/Windows/Connecting.antt =====
-- Taking a command and connecting keep the agent tidy.
use veil_python_stack.Prelude.{
  ◌≡◌, refl, String, string_eq, ◌==◌, Bool, true, false, ◌&&◌, Option, none, some, Bool-cases, inl,
  inr,
}
use veil_python_stack.Errors.{Result, ok, err}
use veil_python_stack.Prelude.Dict.{Dict, lookup}
use veil_python_stack.Message.{Value, is_text, str_or, str_of}
use veil_python_stack.Dataclass.{Instance}
use veil_python_stack.Windows.Agent.{
  Agent, Outside, Link, update_state, consume_command_if_present, connect_once, obey, with_config,
  construct_from, consume_payload, using, with_client, connected, created, configured,
  config_or_file, connecting,
}
use veil_python_stack.Windows.Rounds.{is_none, connect_if}
use veil_python_stack.Windows.Tidy.{IsFree, IsTidy, OnOk, Succeeds-OnOk, if-OnOk, disconnect-IsFree}

-- Taking a command touches no resource.
obey-IsTidy :
    (o : Outside) (command : Option Value) (a : Agent) → IsTidy a → IsTidy (obey o command a)
unfolding update_state str_of
obey-IsTidy o command a h = elim (Bool-cases (is_text "up" command)) [
  | inl y ↦ rw y h
  | inr n ↦ rw n (elim (Bool-cases (is_text "down" command)) [ inl y ↦ rw y h | inr m ↦ rw m h ])
]

with_config-OnOk :
    (o : Outside) (command : Option Value) (r : Result Instance) (a : Agent)
    → IsTidy a
    → OnOk (with_config o command r a) IsTidy
with_config-OnOk o command (err e) a h = tt
with_config-OnOk o command (ok config) a h =
    obey-IsTidy o command (record a { active_config = some config }) h

consume_payload-OnOk :
    (o : Outside) (p : Option (Dict String Value)) (a : Agent)
    → IsTidy a
    → OnOk (consume_payload o p a) IsTidy
consume_payload-OnOk o none a h = h
consume_payload-OnOk o (some payload) a h =
    if-OnOk IsTidy (str_or o.json "" (lookup "issued_at" payload) == a.last_command_ts) (ok tt, a) _
      h
      (with_config-OnOk o (lookup "command" payload) (construct_from (lookup "config" payload))
        (record a { last_command_ts = str_or o.json "" (lookup "issued_at" payload) }) h)

-- Connecting, from an agent that holds nothing
configured-OnOk :
    (o : Outside) (link : Link) (config : Instance) (r : Result Value) (a : Agent)
    → o.cleanup ≡ ok tt
    → is_none a.connection ≡ false
    → a.has_client ≡ true
    → a.has_wintun ≡ true
    → OnOk (configured o link config r a) IsTidy
unfolding update_state
configured-OnOk o link config (err e) a cleans there client wintun =
    Succeeds-OnOk IsTidy _ (disconnect-IsFree o "wintun_setup_failed" _ cleans) (λ b h. inl h)
configured-OnOk o link config (ok network) a cleans there client wintun =
    inr (there, client, wintun, refl, refl)

created-OnOk :
    (o : Outside) (link : Link) (config : Instance) (r : Result (Unit {0})) (a : Agent)
    → o.cleanup ≡ ok tt
    → is_none a.connection ≡ false
    → a.has_client ≡ true
    → OnOk (created o link config r a) IsTidy
created-OnOk o link config (err e) a cleans there client =
    Succeeds-OnOk IsTidy _ (disconnect-IsFree o "wintun_setup_failed" _ cleans) (λ b h. inl h)
created-OnOk o link config (ok u) a cleans there client =
    configured-OnOk o link config o.configure _ cleans there client refl

connected-OnOk :
    (o : Outside) (config : Instance) (r : Result Link) (a : Agent)
    → o.cleanup ≡ ok tt
    → a.has_client ≡ true
    → a.has_wintun ≡ false
    → a.network_state ≡ none
    → a.has_pumps ≡ false
    → OnOk (connected o config r a) IsTidy
unfolding update_state
connected-OnOk o config (err e) a cleans client wintun network pumps =
    inl (refl, refl, wintun, network, pumps)
connected-OnOk o config (ok link) a cleans client wintun network pumps =
    created-OnOk o link config o.create (record a { connection = some link }) cleans refl client

with_client-OnOk :
    (o : Outside) (config : Instance) (r : Result (Unit {0})) (a : Agent)
    → o.cleanup ≡ ok tt
    → IsFree a
    → OnOk (with_client o config r a) IsTidy
unfolding update_state
with_client-OnOk o config (err e) a cleans h = tt
with_client-OnOk o config (ok u) a cleans (c, client, wintun, network, pumps) =
    connected-OnOk o config o.connect (connecting o config a) cleans refl wintun network pumps

using-OnOk :
    (o : Outside) (r : Result Instance) (a : Agent)
    → o.cleanup ≡ ok tt
    → IsFree a
    → OnOk (using o r a) IsTidy
using-OnOk o (err e) a cleans h = tt
using-OnOk o (ok config) a cleans h = with_client-OnOk o config o.new_client a cleans h

and_false : (b : Bool) → (b && false) ≡ false
and_false true = refl
and_false false = refl

pub connect_if-OnOk :
    (o : Outside) (a : Agent) → o.cleanup ≡ ok tt → IsTidy a → OnOk (connect_if o a) IsTidy
unfolding connect_once
connect_if-OnOk o a cleans (inl h) =
    if-OnOk IsTidy (a.should_be_connected && is_none a.connection) (connect_once o a) (ok tt, a)
      (using-OnOk o (config_or_file a.active_config o.config_file) a cleans h) (inl h)
connect_if-OnOk o a cleans (inr (there, client, wintun, network, pumps)) =
    rw (there, and_false a.should_be_connected) (inr (there, client, wintun, network, pumps))

pub consume-OnOk :
    (o : Outside) (a : Agent) → IsTidy a → OnOk (consume_command_if_present o a) IsTidy
unfolding consume_command_if_present
consume-OnOk o a h = consume_payload-OnOk o a.files.command_file a h
