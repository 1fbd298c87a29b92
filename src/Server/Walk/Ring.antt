-- ===== src/Server/Walk/Ring.antt =====
-- The topology walk round a ring of nodes: messages are delivered one after another, each to the
-- node whose address it bears, and `handle_topology_hop` of src/server.rs sends the next.
use ouroboros_fs.Base.{◌≡◌, refl, true, false, List, [], ◌∷◌, Option, some}
use ouroboros_fs.Text.{Text, eq_text, eq_text_refl}
use ouroboros_fs.Map.{Map, insert}
use ouroboros_fs.Node.{Node, get_next}
use ouroboros_fs.Node.Address.{port_str}
use ouroboros_fs.Node.Topology.{append_edge}
use ouroboros_fs.Node.Topology.RoundTrip.{IsEnd}
use ouroboros_fs.Node.Send.{Net, Sent, message, forward_topology_hop, send_topology_done}
use ouroboros_fs.Protocol.Command.{Command, topology_hop, topology_done}
use ouroboros_fs.Server.Walk.{hop_sends, handle_topology_hop}

-- Who listens at an address.
abbrev pub Cluster : Type 0
Cluster = Text → Option Node

-- A message and the one that stands at the end of its hops.
pub data Hops (net : Net) (cluster : Cluster) : Sent → Sent → Type 0 where
  arrived : {m : Sent} → Hops net cluster m m
  hops :
      {m last : Sent} (n : Node) (t start history : Text) (next : Sent)
      → m.command ≡ topology_hop t start history
      → cluster m.to ≡ some n
      → (handle_topology_hop net n t start history).sent ≡ next ∷ []
      → Hops net cluster next last
      → Hops net cluster m last

-- Where a node that is followed by `ns` sends to; after the last node comes the start.
abbrev pub next_of : Text → List Node → Text
next_of start [] = start
next_of start (n ∷ ns) = n.port

-- A node of the ring, with the nodes between it and the start.
pub record Linked (net : Net) (start : Text) (n : Node) (ns : List Node) : Type 0 where
  pub next : n.next_port ≡ some (next_of start ns)
  pub reached : net.up (next_of start ns) ≡ true
  pub port_end : IsEnd (port_str n.port)

-- The nodes after the start: each is known by its address, and has another port than the start.
pub record Between (net : Net) (cluster : Cluster) (start : Text) (n : Node) (ns : List Node)
    : Type 0 where
  pub linked : Linked net start n ns
  pub known : cluster n.port ≡ some n
  pub apart : eq_text (port_str n.port) (port_str start) ≡ false

abbrev pub Line : Net → Cluster → Text → List Node → Type 0
Line net cluster start [] = Unit
Line net cluster start (n ∷ ns) = Between net cluster start n ns × Line net cluster start ns

-- The history after the nodes of a line.
abbrev pub trail : Text → Text → List Node → Text
trail start history [] = history
trail start history (n ∷ ns) = trail start (append_edge history n.port (next_of start ns)) ns

-- What the ring is: the port of each node with the port of the next.
abbrev pub ring_links : Map Text → Text → List Node → Map Text
ring_links m start [] = m
ring_links m start (n ∷ ns) =
    ring_links (insert m (port_str n.port) (port_str (next_of start ns))) start ns

-- A message of the walk, up to its sender's token.
pub record Bears (to : Text) (command : Command) (m : Sent) : Type 0 where
  pub goes_to : m.to ≡ to
  pub carries : m.command ≡ command

module _ (net : Net) (cluster : Cluster) (start : Text) where
  last_sends :
      (n : Node) (t history : Text)
      → Linked net start n []
      → (handle_topology_hop net n t start history).sent
        ≡ message n start (topology_done t (append_edge history n.port start)) ∷ []
  unfolding handle_topology_hop get_next hop_sends send_topology_done
  last_sends n t history l = rw (l.next, eq_text_refl (port_str start), l.reached)

  inner_sends :
      (n m : Node) (t history : Text)
      → n.next_port ≡ some m.port
      → net.up m.port ≡ true
      → eq_text (port_str m.port) (port_str start) ≡ false
      → (handle_topology_hop net n t start history).sent
        ≡ message n m.port (topology_hop t start (append_edge history n.port m.port)) ∷ []
  unfolding handle_topology_hop get_next hop_sends forward_topology_hop
  inner_sends n m t history hn hu ha = rw (hn, ha, hu)

  -- A hop that reaches the first node of a line ends at the start, with every edge of the line.
  pub Hops-Line :
      (n : Node) (ns : List Node) (t history : Text) (m : Sent)
      → Line net cluster start (n ∷ ns)
      → Bears n.port (topology_hop t start history) m
      → (last : Sent) × (Hops net cluster m last
          × Bears start (topology_done t (trail start history (n ∷ ns))) last)
  Hops-Line n [] t history m (b, _) h =
      let next = message n start (topology_done t (append_edge history n.port start)) in
      (
        next,
        (
          hops n t start history next h.carries (rw h.goes_to b.known)
              (last_sends n t history b.linked) arrived,
          record { goes_to = refl; carries = refl },
        ),
      )
  Hops-Line n (n' ∷ ns) t history m (b, line) h =
      let history' = append_edge history n.port n'.port in
      let next = message n n'.port (topology_hop t start history') in
      let (last, (more, bears)) =
        Hops-Line n' ns t history' next line (record { goes_to = refl; carries = refl }) in
      (
        last,
        (
          hops n t start history next h.carries (rw h.goes_to b.known)
              (inner_sends n n' t history b.linked.next b.linked.reached line.0.apart) more,
          bears,
        ),
      )
