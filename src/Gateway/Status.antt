-- ===== src/Gateway/Status.antt =====
-- The state of the ring as the gateway asks for it: `ping_node`, `fetch_node_map`,
-- `handle_health_request` and `trigger_node_heal` of src/gateway.rs.
use ouroboros_fs.Base.{
  ℕ, Bool, true, false, ◌&&◌, List, [], ◌∷◌, Option, none, some, if◌then◌else◌, any, Result, ok,
  err,
}
use ouroboros_fs.Text.{Text, codes, trim, eq_ignore_ascii_case}
use ouroboros_fs.Text.Utf8.{read_until_newline, from_utf8}
use ouroboros_fs.Map.{Map, insert}
use ouroboros_fs.Protocol.Command.{node_ping, node_heal}
use ouroboros_fs.Node.Status.{NodeStatus, alive, dead}
use ouroboros_fs.Node.Address.{port_str}
use ouroboros_fs.Gateway.Ring.{
  Gateway, Nodes, Contact, asks, command_bytes, connect_to_ring, unreachable, joined,
}

-- The first line of an answer; `none` is a read that fails.
abbrev pub first_line_of : Nodes → Text → List ℕ → Option Text
first_line_of nodes addr request =
    from_utf8 (read_until_newline (joined (nodes.answers addr request))).0

-- A PONG in any case of letters.
unfoldable pub is_pong : Option Text → Bool
is_pong none = false
is_pong (some line) = eq_ignore_ascii_case (trim line) (codes "PONG")

unfoldable pub ping_node : Nodes → Text → Text × NodeStatus
ping_node nodes addr = (
  port_str addr,
  if nodes.connects addr
        && nodes.prompt addr
        && is_pong (first_line_of nodes addr (command_bytes node_ping []))
      then alive
      else dead,
)

-- The results in the order of the addresses.
collect : Map NodeStatus → List (Text × NodeStatus) → Map NodeStatus
collect m [] = m
collect m ((port, status) ∷ results) = collect (insert m port status) results

ping_all : Nodes → List Text → List (Text × NodeStatus)
ping_all nodes [] = []
ping_all nodes (addr ∷ addrs) = ping_node nodes addr ∷ ping_all nodes addrs

unfoldable pub pings : Gateway → Nodes → List Text → List Contact
pings g nodes [] = []
pings g nodes (addr ∷ addrs) =
    let rest = pings g nodes addrs in
    if nodes.connects addr then asks g addr (command_bytes node_ping []) ∷ rest else rest

unfoldable pub fetch_node_map : Gateway → Nodes → Map NodeStatus × List Contact
unfolding collect ping_all
fetch_node_map g nodes = (collect [] (ping_all nodes g.node_addrs), pings g nodes g.node_addrs)

is_alive : NodeStatus → Bool
is_alive alive = true
is_alive dead = false

-- `map.values().any(…)`
unfoldable pub any_alive : Map NodeStatus → Bool
unfolding is_alive
any_alive m = any (λ e. is_alive e.1) m

-- The line that answers NODE HEAL. The read of nothing is a closed connection.
heal_line : List ℕ → Result Text Text
heal_line [] = err (codes "Node disconnected without response")
heal_line (b ∷ line) = elim (from_utf8 (b ∷ line)) [
  | none ↦ err (codes "stream did not contain valid UTF-8")
  | some text ↦ ok (trim text)
]

heal_answer : Nodes → Text → Result Text Text
unfolding heal_line
heal_answer nodes addr =
    if nodes.prompt addr
    then heal_line (read_until_newline (joined (nodes.answers addr (command_bytes node_heal [])))).0
    else err (codes "Gateway timed out waiting for NODE HEAL response")

unfoldable pub trigger_node_heal : Gateway → Nodes → Result Text Text × List Contact
unfolding heal_answer
trigger_node_heal g nodes = elim (connect_to_ring nodes g.node_addrs) [
  | none ↦ (err unreachable, [])
  | some addr ↦ (heal_answer nodes addr, asks g addr (command_bytes node_heal []) ∷ [])
]
