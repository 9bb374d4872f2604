-- ===== src/Node.antt =====
-- The C++ extension `_veil_core_ext.VeilNode` as the Python code meets it: the calls that are made
-- of it, kept as a log, and its answers, a parameter of the operations that ask it.
use veil_python_stack.Prelude.{ℕ, Bool, Option, List, String}
use veil_python_stack.Errors.{Error}

pub data NodeCall : Type 0 where
  node_start node_stop : NodeCall
  node_connect : String → ℕ → NodeCall
  node_send : ℕ → List ℕ → ℕ → NodeCall
  node_disconnect : ℕ → NodeCall

-- What the node answers: an exception of `start` or `connect`, whether the send pipeline takes the
-- bytes for a session and a stream, and whether there was such a session to drop.
pub record Node : Type 0 where
  pub start_fails : Option Error
  pub connect_fails : Option Error
  pub accepts : ℕ → List ℕ → ℕ → Bool
  pub drops : ℕ → Bool
