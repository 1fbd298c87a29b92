-- ===== src/Server/Outcome.antt =====
-- What a handler of src/server.rs leaves: the node, the text of its reply, the connections it made,
-- and the waiters of this node that it woke.
use ouroboros_fs.Base.{List, []}
use ouroboros_fs.Text.{Text, codes}
use ouroboros_fs.Node.{Node}
use ouroboros_fs.Node.Send.{Sent}

pub record Outcome : Type 0 where
  pub node : Node
  pub reply : Text
  pub sent : List Sent
  pub woken : List Text

abbrev pub replies : Node → Text → Outcome
replies n text = record { node = n; reply = text; sent = []; woken = [] }

abbrev pub acknowledged : Node → List Sent → Outcome
acknowledged n sent = record { node = n; reply = codes "OK\n"; sent = sent; woken = [] }
