-- ===== src/Session/Filter.antt =====
-- A session talks for itself alone, whichever owner it has.
use veil_python_stack.Prelude.{ℕ, ◌≡◌, Bool, Option, some, List, arith, or_default}
use veil_python_stack.Errors.{Result}
use veil_python_stack.Node.{Node}
use veil_python_stack.Client
use veil_python_stack.Server
use veil_python_stack.Session.{Session, Owner, client_owner, server_owner, send}

-- What a send through a session gives and leaves: as the owner's own send
abbrev pub AsksOwner : Result Bool × Owner → Node → ℕ → List ℕ → ℕ → Owner → Type 0
AsksOwner r node s bytes i (client_owner c) =
    let (answer, c') = Client.send node bytes i (some s) c in
    (r.0 ≡ answer) × (r.1 ≡ client_owner c')
AsksOwner r node s bytes i (server_owner c) =
    let (answer, c') = Server.send node s bytes i c in (r.0 ≡ answer) × (r.1 ≡ server_owner c')

-- Sending through a session is the owner's own send to the session's id and the given or default
-- stream: the TypeError that a client raises for the server's way to call it never reaches the
-- caller, and no send is made twice.
pub send-AsksOwner :
    (node : Node) (bytes : List ℕ) (stream_id : Option ℕ) (s : Session) (owner : Owner)
    → AsksOwner
        (send node bytes stream_id s owner)
        node
        s.session_id
        bytes
        (or_default stream_id s.default_stream_id)
        owner
unfolding send Server.send Client.send
send-AsksOwner node bytes stream_id s (client_owner c) = (ground arith, ground arith)
send-AsksOwner node bytes stream_id s (server_owner c) = (ground arith, ground arith)
