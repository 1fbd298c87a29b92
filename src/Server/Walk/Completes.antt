-- ===== src/Server/Walk/Completes.antt =====
-- A whole topology walk, from `handle_topology_walk` to `handle_topology_done` of src/server.rs.
use ouroboros_fs.Base.{◌≡◌, refl, ap, ◌∙◌, true, List, [], ◌∷◌, some}
use ouroboros_fs.Text.{Text}
use ouroboros_fs.Map.{get, insert, get-insert_self}
use ouroboros_fs.Node.{Node, get_next}
use ouroboros_fs.Node.Address.{port_str}
use ouroboros_fs.Node.Topology.{
  append_edge, first_walk_history, set_topology_from_history, parse_history,
}
use ouroboros_fs.Node.Topology.RoundTrip.{IsEnd}
use ouroboros_fs.Node.Topology.Grow.{parse_history-append_edge, nothing_read}
use ouroboros_fs.Node.Walks.{make_walk_token, register_walk, finish_walk}
use ouroboros_fs.Node.Send.{Net, Sent, message, forward_topology_hop}
use ouroboros_fs.Protocol.Command.{topology_hop, topology_done}
use ouroboros_fs.Server.Walk.{waiting, handle_topology_walk, handle_topology_done}
use ouroboros_fs.Server.Walk.Ring.{
  Cluster, Hops, Linked, Line, next_of, trail, ring_links, Hops-Line,
}

-- The node that waits: its walk registered under the token it made.
abbrev pub waiter : Node → Node
waiter n = register_walk (make_walk_token n).0 (make_walk_token n).1

-- A walk that came round the ring of `n` and `ns`.
pub record Completed (net : Net) (cluster : Cluster) (n : Node) (ns : List Node) : Type 0 where
  pub token : Text
  pub first : Sent
  pub last : Sent
  pub history : Text
  pub starts : handle_topology_walk net n ≡ waiting token (waiter n) (first ∷ [])
  pub rounds : Hops net cluster first last
  pub returns : last.to ≡ n.port
  pub brings : last.command ≡ topology_done token history
  pub wakes : (handle_topology_done net (waiter n) token history).woken ≡ token ∷ []
  pub learns :
      (handle_topology_done net (waiter n) token history).node.topology_map
      ≡ ring_links [] n.port ns

module _ (net : Net) (cluster : Cluster) (start : Text) where
  next-IsEnd :
      (ns : List Node)
      → IsEnd (port_str start)
      → Line net cluster start ns
      → IsEnd (port_str (next_of start ns))
  next-IsEnd [] e _ = e
  next-IsEnd (n ∷ ns) e (b, line) = b.linked.port_end

  -- The history of a line is read as the links of its nodes.
  trail-links :
      (h : Text) (ns : List Node)
      → IsEnd (port_str start)
      → Line net cluster start ns
      → parse_history (trail start h ns) ≡ ring_links (parse_history h) start ns
  trail-links h [] e line = refl
  trail-links h (n ∷ ns) e (b, line) =
      trail-links (append_edge h n.port (next_of start ns)) ns e line
      ∙ ap (λ m. ring_links m start ns)
          (parse_history-append_edge h n.port (next_of start ns) b.linked.port_end
            (next-IsEnd ns e line))

walk_starts :
    (net : Net) (n m : Node)
    → n.next_port ≡ some m.port
    → net.up m.port ≡ true
    → handle_topology_walk net n
      ≡ waiting (make_walk_token n).1 (waiter n) (
          message
            (waiter n)
            m.port
            (topology_hop (make_walk_token n).1 n.port (append_edge [] n.port m.port))
          ∷ [])
unfolding handle_topology_walk first_walk_history get_next forward_topology_hop make_walk_token
    register_walk
walk_starts net n m hn hu = rw (hn, hu)

done_wakes :
    (net : Net) (n : Node) (history : Text)
    → (handle_topology_done net (waiter n) (make_walk_token n).1 history).woken
      ≡ (make_walk_token n).1 ∷ []
unfolding handle_topology_done finish_walk register_walk get make_walk_token
done_wakes net n history = rw (get-insert_self n.pending_walks (make_walk_token n).1 tt)

done_learns :
    (net : Net) (n : Node) (t history : Text)
    → (handle_topology_done net n t history).node.topology_map ≡ parse_history history
unfolding handle_topology_done set_topology_from_history
done_learns net n t history = refl

-- In a ring of two nodes or more, each of which has the next as its next hop, takes a connection
-- and has a port without `-` and `;`, and where the nodes after the start are known by their
-- addresses and have other ports than it, a walk comes back to its start, wakes the waiter, and
-- the topology of the start then is the links of the ring, each node's port with the next one's.
pub topology_walk-completes :
    (net : Net) (cluster : Cluster) (n m : Node) (ns : List Node)
    → Linked net n.port n (m ∷ ns)
    → Line net cluster n.port (m ∷ ns)
    → Completed net cluster n (n ∷ m ∷ ns)
topology_walk-completes net cluster n m ns l line =
    let t = (make_walk_token n).1 in
    let h = append_edge [] n.port m.port in
    let first = message (waiter n) m.port (topology_hop t n.port h) in
    let (last, (path, bears)) =
      Hops-Line net cluster n.port m ns t h first line
        (record { goes_to = refl; carries = refl }) in
    record {
      token = t;
      first = first;
      last = last;
      history = trail n.port h (m ∷ ns);
      starts = walk_starts net n m l.next l.reached;
      rounds = path;
      returns = bears.goes_to;
      brings = bears.carries;
      wakes = done_wakes net n (trail n.port h (m ∷ ns));
      learns =
          done_learns net (waiter n) t (trail n.port h (m ∷ ns))
          ∙ trail-links net cluster n.port h (m ∷ ns) l.port_end line
          ∙ ap (λ g. ring_links g n.port (m ∷ ns))
              (parse_history-append_edge [] n.port m.port l.port_end line.0.linked.port_end
                ∙ ap (λ g. insert g (port_str n.port) (port_str m.port)) nothing_read);
    }
