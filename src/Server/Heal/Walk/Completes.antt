-- ===== src/Server/Heal/Walk/Completes.antt =====
-- A whole heal walk, from `handle_node_heal` to `handle_node_heal_done` of src/server.rs.
use ouroboros_fs.Base.{ℕ, ◌≡◌, refl, List, [], ◌∷◌, ◌++◌, some}
use ouroboros_fs.Text.{Text}
use ouroboros_fs.Map.{get, get-insert_self}
use ouroboros_fs.Node.{Node}
use ouroboros_fs.Node.Walks.{make_walk_token, register_heal_walk, finish_heal_walk}
use ouroboros_fs.Node.Send.{Sent}
use ouroboros_fs.Protocol.Command.{node_heal_done}
use ouroboros_fs.Server.Control.{handle_node_heal_done}
use ouroboros_fs.Server.Walk.Ring.{Cluster}
use ouroboros_fs.Server.Heal.Death.{Surroundings, Process}
use ouroboros_fs.Server.Heal.Walk.{handle_node_heal}
use ouroboros_fs.Server.Heal.Walk.Rounds.{
  after_step, HealHops, Stop, next_stop, Known, HealLine, revivals,
}
use ouroboros_fs.Server.Heal.Walk.Lines.{HealLine-ComesBack}

-- The node that waits: its walk registered under the token it made.
abbrev pub heal_waiter : Node → Node
heal_waiter n = register_heal_walk (make_walk_token n).0 (make_walk_token n).1

-- A heal walk that came round the ring of `n` and the places behind it.
pub record Healed (sha256 : List ℕ → List ℕ) (fresh : Text → Node) (s : Surroundings)
    (cluster : Cluster) (n : Node) (qs : List Stop) : Type 0 where
  pub token : Text
  pub first : Sent
  pub last : Sent
  pub later : List Process
  pub names : (handle_node_heal sha256 s n).0 ≡ token
  pub starts : (handle_node_heal sha256 s n).1.forwarded ≡ first ∷ []
  pub rounds :
      HealHops sha256 fresh s
        (after_step sha256 fresh n.port (handle_node_heal sha256 s n).1 cluster)
        first
        later
        last
  pub revives :
      (handle_node_heal sha256 s n).1.spawned ++ later ≡ revivals sha256 fresh s (heal_waiter n) qs
  pub returns : last.to ≡ n.port
  pub brings : last.command ≡ node_heal_done token
  pub wakes : (handle_node_heal_done (handle_node_heal sha256 s n).1.node token).woken ≡ token ∷ []

woken_waiter :
    (n m : Node)
    → m.pending_heals ≡ (heal_waiter n).pending_heals
    → (handle_node_heal_done m (make_walk_token n).1).woken ≡ (make_walk_token n).1 ∷ []
unfolding handle_node_heal_done finish_heal_walk register_heal_walk get make_walk_token
woken_waiter n m h = rw (h, get-insert_self n.pending_heals (make_walk_token n).1 tt)

-- In a ring where a node that answers has its next hop and is known by its address, and where a
-- node that does not answer can be started again by the node before it, whose topology knows the
-- next hop of it and whose keys, ports and tags can be written as text, a heal walk comes back to
-- its start, has started a process for exactly the nodes that did not answer, and wakes its
-- waiter, though a process starts without a topology and tags, with any next hop or none, and
-- passes the walk on as what the connections of its healing left it; the addresses of later places
-- differ from a place's own, the ports after the start from the start's, and a lost address is
-- written as host and port; every place that answers or was started again takes a connection, and
-- so does the start.
pub node_heal-Healed :
    (sha256 : List ℕ → List ℕ) (fresh : Text → Node) (s : Surroundings) (cluster : Cluster)
    (n : Node) (qs : List Stop)
    → n.next_port ≡ some (next_stop n.port qs)
    → Known cluster qs
    → HealLine sha256 fresh s n.port (heal_waiter n) n.port qs
    → Healed sha256 fresh s cluster n qs
unfolding handle_node_heal make_walk_token register_heal_walk
node_heal-Healed sha256 fresh s cluster n qs hn k line =
    let t = (make_walk_token n).1 in
    let b =
      HealLine-ComesBack sha256 fresh s t n.port qs (heal_waiter n) n.port cluster hn k line in
    record {
      token = t;
      first = b.first;
      last = b.last;
      later = b.later;
      names = refl;
      starts = b.sends;
      rounds = b.path;
      revives = b.starts;
      returns = b.bears.goes_to;
      brings = b.bears.carries;
      wakes = woken_waiter n _ b.keeps;
    }
