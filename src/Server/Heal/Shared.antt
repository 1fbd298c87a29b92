-- ===== src/Server/Heal/Shared.antt =====
-- The state of a respawned node after the lines of `share_data_with_new_node` (src/server.rs), by the
-- handlers that take them.
use ouroboros_fs.Base.{◌≡◌, refl, sym, ap, ◌∙◌, List, [], ◌∷◌, Option, none, some, All}
use ouroboros_fs.Text.{Text}
use ouroboros_fs.Map.{get, keys}
use ouroboros_fs.Map.Codec.{at}
use ouroboros_fs.Node.{Node, set_next}
use ouroboros_fs.Node.Address.{port_str, host_of, address}
use ouroboros_fs.Node.Netmap.{
  get_network_nodes_entries, set_network_nodes_from_entries, parse_entries,
}
use ouroboros_fs.Node.Netmap.RoundTrip.{IsPortKey, parse-serialize_entries}
use ouroboros_fs.Node.Topology.{
  get_topology_history, set_topology_from_history, parse_history, get_next_for_node,
}
use ouroboros_fs.Node.Topology.RoundTrip.{IsEnd, parse-topology_history}
use ouroboros_fs.Node.Topology.Grow.{nothing_read}
use ouroboros_fs.Node.Tags.{
  get_file_tags_entries, set_file_tags_from_entries, parse_tags, read_tag, no_tag,
}
use ouroboros_fs.Node.Tags.RoundTrip.{IsTag, parse-tags_text}
use ouroboros_fs.Protocol.Command.{Command, netmap_set, topology_set, file_tags_set, node_next}
use ouroboros_fs.Server.Control.{handle_node_next, handle_file_tags_set}
use ouroboros_fs.Server.Walk.{handle_topology_set}
use ouroboros_fs.Server.Discover.{handle_netmap_set}
use ouroboros_fs.Server.Heal.{state_commands, shared_commands}

-- The node after one of the lines, and after all of them.
unfoldable pub receive : Node → Command → Node
receive m (netmap_set entries) = (handle_netmap_set m entries).node
receive m (topology_set history) = (handle_topology_set m history).node
receive m (file_tags_set entries) = (handle_file_tags_set m entries).node
receive m (node_next addr) = (handle_node_next m addr).node
receive m _ = m

unfoldable pub receive_all : Node → List Command → Node
receive_all m [] = m
receive_all m (c ∷ cs) = receive_all (receive m c) cs

-- A node that knows nothing yet.
pub record IsFresh (m : Node) : Type 0 where
  pub no_topology : m.topology_map ≡ []
  pub no_tags : m.file_tags ≡ []

next_address : Text → Option Text → Option Text → Option Text
next_address host none old = old
next_address host (some port) old = some (address host port)

no_tags_read : parse_tags [] ≡ []
unfolding parse_tags read_tag ouroboros_fs.Text.Pieces.split
no_tags_read = refl

-- The state after the four texts.
record Learns (m : Node) (entries history tags host : Text) (next : Option Text) (out : Node)
    : Type 0 where
  nodes : out.network_nodes ≡ parse_entries entries
  topology : out.topology_map ≡ parse_history history
  file_tags : out.file_tags ≡ parse_tags tags
  next_hop : out.next_port ≡ next_address host next m.next_port

learns :
    (m : Node) (entries history tags host : Text) (next : Option Text)
    → IsFresh m
    → Learns m entries history tags host next
        (receive_all m (state_commands entries history tags host next))
unfolding receive_all receive state_commands next_address handle_netmap_set handle_topology_set
    handle_file_tags_set handle_node_next set_network_nodes_from_entries set_topology_from_history
    set_file_tags_from_entries set_next
learns m entries [] [] host none f = record {
  nodes = refl;
  topology = f.no_topology ∙ sym nothing_read;
  file_tags = f.no_tags ∙ sym no_tags_read;
  next_hop = refl;
}
learns m entries [] [] host (some p) f = record {
  nodes = refl;
  topology = f.no_topology ∙ sym nothing_read;
  file_tags = f.no_tags ∙ sym no_tags_read;
  next_hop = refl;
}
learns m entries [] (x ∷ t) host none f = record {
  nodes = refl;
  topology = f.no_topology ∙ sym nothing_read;
  file_tags = refl;
  next_hop = refl;
}
learns m entries [] (x ∷ t) host (some p) f = record {
  nodes = refl;
  topology = f.no_topology ∙ sym nothing_read;
  file_tags = refl;
  next_hop = refl;
}
learns m entries (y ∷ h) [] host none f = record {
  nodes = refl;
  topology = refl;
  file_tags = f.no_tags ∙ sym no_tags_read;
  next_hop = refl;
}
learns m entries (y ∷ h) [] host (some p) f = record {
  nodes = refl;
  topology = refl;
  file_tags = f.no_tags ∙ sym no_tags_read;
  next_hop = refl;
}
learns m entries (y ∷ h) (x ∷ t) host none f = record {
  nodes = refl;
  topology = refl;
  file_tags = refl;
  next_hop = refl;
}
learns m entries (y ∷ h) (x ∷ t) host (some p) f = record {
  nodes = refl;
  topology = refl;
  file_tags = refl;
  next_hop = refl;
}

-- The state of the node that shares, and of a node that has the same.
pub record Sharable (n : Node) : Type 0 where
  pub port_keys : All IsPortKey (keys n.network_nodes)
  pub edge_ends : All (λ k. IsEnd k × IsEnd (at n.topology_map [] k)) (keys n.topology_map)
  pub tag_names : All (λ k. IsTag k (at n.file_tags no_tag k)) (keys n.file_tags)

pub record Agrees (n : Node) (addr : Text) (out : Node) : Type 0 where
  pub same_nodes : (j : Text) → get out.network_nodes j ≡ get n.network_nodes j
  pub same_topology : (j : Text) → get out.topology_map j ≡ get n.topology_map j
  pub same_tags : (j : Text) → get out.file_tags j ≡ get n.file_tags j
  pub own_next :
      (port : Text)
      → get_next_for_node n (port_str addr) ≡ some port
      → out.next_port ≡ some (address (host_of n.port) port)

-- A node that knows no topology and no tags, and takes the lines that its neighbour shares, then
-- has the neighbour's status, next hop and tag under every key, and its own next hop if the
-- neighbour's topology knows one, if the neighbour's keys, ports and tags can be written as text.
pub shared_commands-Agrees :
    (n m : Node) (addr : Text)
    → Sharable n
    → IsFresh m
    → Agrees n addr (receive_all m (shared_commands n addr))
unfolding shared_commands get_network_nodes_entries get_topology_history get_file_tags_entries
    next_address
shared_commands-Agrees n m addr s f =
    let l =
      learns m (get_network_nodes_entries n) (get_topology_history n) (get_file_tags_entries n)
        (host_of n.port) (get_next_for_node n (port_str addr)) f in
    record {
      same_nodes =
          λ j. ap (λ t. get t j) l.nodes ∙ parse-serialize_entries n.network_nodes s.port_keys j;
      same_topology =
          λ j. ap (λ t. get t j) l.topology ∙ parse-topology_history n.topology_map s.edge_ends j;
      same_tags = λ j. ap (λ t. get t j) l.file_tags ∙ parse-tags_text n.file_tags s.tag_names j;
      own_next = λ port e. l.next_hop ∙ ap (λ o. next_address (host_of n.port) o m.next_port) e;
    }
