-- ===== src/Node/Topology.antt =====
-- The topology, `port -> next port` of the whole ring: `append_edge` and the methods on
-- `topology_map` of src/node.rs.
pub mod RoundTrip
pub mod Grow
use ouroboros_fs.Base.{
  ℕ, ◌≡◌, refl, Bool, true, false, List, [], ◌∷◌, ◌++◌, map, Option, none, some, if◌then◌else◌,
  unwrap_or,
}
use ouroboros_fs.Text.{Text, codes, is_empty, eq_text}
use ouroboros_fs.Text.Pieces.{split, split_once_str, join}
use ouroboros_fs.Map.{Map, get, insert, keys}
use ouroboros_fs.Map.Sort.{sort_keys}
use ouroboros_fs.Map.Codec.{read_pieces, at}
use ouroboros_fs.Node.{Node, get_next}
use ouroboros_fs.Node.Address.{port_str}

abbrev pub arrow : Text
arrow = codes "->"

-- `format!("{from}->{to}")`
abbrev pub edge : Text → Text → Text
edge from to = from ++ b'-' ∷ (b'>' ∷ to)

unfoldable pub append_edge : Text → Text → Text → Text
append_edge history from_addr to_addr =
    let e = edge (port_str from_addr) (port_str to_addr) in
    if is_empty history then e else history ++ b';' ∷ e

unfoldable pub first_walk_history : Node → Option Text
first_walk_history n = elim (get_next n) [
  | none ↦ none
  | some next ↦ some (append_edge [] n.port next)
]

-- `if let Some((from, to)) = edge.split_once("->")`
add_edge : Map Text → Option (Text × Text) → Map Text
add_edge m none = m
add_edge m (some (from, to)) = insert m from to

unfoldable pub read_edge : Map Text → Text → Map Text
unfolding add_edge
read_edge m piece = if is_empty piece then m else add_edge m (split_once_str arrow piece)

unfoldable pub parse_history : Text → Map Text
parse_history history = read_pieces read_edge [] (split b';' history)

-- The old map is cleared first.
unfoldable pub set_topology_from_history : Node → Text → Node
set_topology_from_history n history = record n { topology_map = parse_history history }

unfoldable pub edge_text : Map Text → Text → Text
edge_text m k = edge k (at m [] k)

unfoldable pub topology_history : Map Text → Text
topology_history m = join b';' (map (edge_text m) (sort_keys (keys m)))

unfoldable pub get_topology_history : Node → Text
get_topology_history n = topology_history n.topology_map

unfoldable pub get_next_for_node : Node → Text → Option Text
get_next_for_node n port = get n.topology_map port

topology_tests :
    (parse_history (codes "7000->7001;garbage;7001->7002")
      ≡ (codes "7000", codes "7001") ∷ (codes "7001", codes "7002") ∷ [])
    × (append_edge (codes "7000->7001") (codes "127.0.0.1:7001") (codes "127.0.0.1:7002")
        ≡ codes "7000->7001;7001->7002")
    × (topology_history (parse_history (codes "7001->7000;7000->7001"))
        ≡ codes "7000->7001;7001->7000")
unfolding parse_history read_edge append_edge topology_history edge_text port_str split
    split_once_str insert get join sort_keys
topology_tests = (refl, refl, refl)
