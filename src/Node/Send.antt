-- ===== src/Node/Send.antt =====
-- Outbound connections of src/node.rs: the `forward_*`, `send_*` and `broadcast_*` methods. The
-- network is a parameter: which addresses take a connection, and the error of one that does not.
use ouroboros_fs.Base.{
  ℕ, ◌+◌, ◌%◌, ◌^◌, Bool, List, [], ◌∷◌, none, some, Result, ok, err, if◌then◌else◌,
}
use ouroboros_fs.Text.{Text, eq_text, is_empty}
use ouroboros_fs.Map.{keys}
use ouroboros_fs.Auth.Token.{AuthToken}
use ouroboros_fs.Protocol.Command.{
  Command, ring_forward, topology_hop, topology_done, topology_set, netmap_hop, netmap_done,
  netmap_set,
}
use ouroboros_fs.Node.{Node, get_next}
use ouroboros_fs.Node.Address.{host_str, address}
use ouroboros_fs.Node.Netmap.{parse_entries, get_network_nodes_entries}
use ouroboros_fs.Node.Topology.{get_topology_history}

-- The network as one call sees it. A connection that is taken also takes the lines written to it.
pub record Net : Type 0 where
  pub up : Text → Bool
  pub reason : Text → Text

-- A connection that was opened: the AUTH line of the token first, then the command's line, then raw
-- bytes.
pub record Sent : Type 0 where
  pub to : Text
  pub token : AuthToken
  pub command : Command
  pub payload : List ℕ

abbrev pub message : Node → Text → Command → Sent
message n to c = record { to = to; token = n.auth_token; command = c; payload = [] }

-- `TcpStream::connect(to).await?` and the writes.
unfoldable pub send_to : Net → Node → Text → Command → Result (List Sent) Text
send_to net n to c = if net.up to then ok (message n to c ∷ []) else err (net.reason to)

-- `if let Some(next) = self.get_next().await { … } Ok(())`
unfoldable pub send_next : Net → Node → Command → Result (List Sent) Text
unfolding send_to
send_next net n c = elim (get_next n) [ none ↦ ok [] | some next ↦ send_to net n next c ]

unfoldable pub forward_ring_forward : Net → Node → ℕ → Text → Result (List Sent) Text
unfolding send_next
forward_ring_forward net n ttl msg = send_next net n (ring_forward ttl msg)

unfoldable pub forward_topology_hop : Net → Node → Text → Text → Text → Result (List Sent) Text
unfolding send_next
forward_topology_hop net n token start history = send_next net n (topology_hop token start history)

unfoldable pub send_topology_done : Net → Node → Text → Text → Text → Result (List Sent) Text
unfolding send_to
send_topology_done net n start token history = send_to net n start (topology_done token history)

unfoldable pub forward_netmap_hop : Net → Node → Text → Text → Text → Result (List Sent) Text
unfolding send_next
forward_netmap_hop net n token start entries = send_next net n (netmap_hop token start entries)

unfoldable pub send_netmap_done : Net → Node → Text → Text → Text → Result (List Sent) Text
unfolding send_to
send_netmap_done net n start token entries = send_to net n start (netmap_done token entries)

-- One command to every port but the node's own; a port that does not answer is passed over.
unfoldable pub send_all : Net → Node → List Text → Command → List Sent
send_all net n [] c = []
send_all net n (port ∷ ports) c =
    let rest = send_all net n ports c in
    let addr = address (host_str n.port) port in
    if eq_text addr n.port then rest else if net.up addr then message n addr c ∷ rest else rest

unfoldable pub broadcast_netmap : Net → Node → Text → List Sent
unfolding send_all
broadcast_netmap net n entries = send_all net n (keys (parse_entries entries)) (netmap_set entries)

-- The counter is an `AtomicU64`.
unfoldable pub broadcast_netmap_update : Net → Node → Node × List Sent
broadcast_netmap_update net n = (
  record n { netmap_broadcasts = (n.netmap_broadcasts + 1) % 2 ^ 64 },
  broadcast_netmap net n (get_network_nodes_entries n),
)

unfoldable pub broadcast_topology_set : Net → Node → List Sent
unfolding send_all
broadcast_topology_set net n =
    let history = get_topology_history n in
    if is_empty history then [] else send_all net n (keys n.network_nodes) (topology_set history)
