-- ===== src/Node/Netmap.antt =====
-- The netmap, the status of every node: `parse_entries`, `serialize_entries` and the methods on
-- `network_nodes` of src/node.rs.
pub mod RoundTrip
use ouroboros_fs.Base.{
  ℕ, ◌+◌, ◌≡◌, refl, Bool, true, false, List, [], ◌∷◌, ◌++◌, map, Option, none, some, ◌==◌,
  if◌then◌else◌, length, ◌||◌,
}
use ouroboros_fs.Text.{Text, codes, trim, is_empty, eq_text}
use ouroboros_fs.Text.Pieces.{split, splitn, item, join}
use ouroboros_fs.Map.{Map, get, insert, keys}
use ouroboros_fs.Map.Sort.{sort_keys}
use ouroboros_fs.Map.Codec.{read_pieces}
use ouroboros_fs.Node.{Node}
use ouroboros_fs.Node.Status.{NodeStatus, alive, dead}
use ouroboros_fs.Node.Address.{port_str}

-- The `match v`: an unknown status counts as alive.
unfoldable pub read_status : Text → NodeStatus
read_status v =
    if eq_text v (codes "Alive") || eq_text v (codes "alive")
    then alive
    else if eq_text v (codes "Dead") || eq_text v (codes "dead")
    then dead
    else alive

-- One piece of the list: entries without a key are passed over.
unfoldable pub read_entry : Map NodeStatus → Text → Map NodeStatus
read_entry m part =
    let kv = trim part in
    let k = trim (item (splitn 2 b'=' kv) 0) in
    let v = trim (item (splitn 2 b'=' kv) 1) in
    if is_empty kv then m else if is_empty k then m else insert m k (read_status v)

unfoldable pub parse_entries : Text → Map NodeStatus
parse_entries entries = read_pieces read_entry [] (split b',' entries)

-- The `match map.get(k)`.
abbrev pub status_text : Option NodeStatus → Text
status_text none = codes "Alive"
status_text (some alive) = codes "Alive"
status_text (some dead) = codes "Dead"

unfoldable pub entry_text : Map NodeStatus → Text → Text
entry_text m k = k ++ b'=' ∷ status_text (get m k)

unfoldable pub serialize_entries : Map NodeStatus → Text
serialize_entries m = join b',' (map (entry_text m) (sort_keys (keys m)))

unfoldable pub entries_with_self : Node → Text → Text
entries_with_self n entries =
    serialize_entries (insert (parse_entries entries) (port_str n.port) alive)

unfoldable pub set_network_nodes_from_entries : Node → Text → Node
set_network_nodes_from_entries n entries = record n { network_nodes = parse_entries entries }

-- At least one node is known: the node itself.
unfoldable pub network_size : Node → ℕ
network_size n = let k = length n.network_nodes in if k == 0 then 1 else k

-- The lines of NETMAP GET; `{:?}` of a status is its name.
unfoldable pub get_network_nodes_lines : Node → List Text
unfolding entry_text
get_network_nodes_lines n = map (entry_text n.network_nodes) (sort_keys (keys n.network_nodes))

unfoldable pub update_node_status : Node → Text → NodeStatus → Node
update_node_status n port status = record n { network_nodes = insert n.network_nodes port status }

count_status : Map NodeStatus → ℕ → ℕ → ℕ × ℕ
count_status [] a d = (a, d)
count_status ((k, alive) ∷ m) a d = count_status m (a + 1) d
count_status ((k, dead) ∷ m) a d = count_status m a (d + 1)

unfoldable pub alive_dead_counts : Node → ℕ × ℕ
unfolding count_status
alive_dead_counts n = count_status n.network_nodes 0 0

unfoldable pub get_network_nodes_entries : Node → Text
get_network_nodes_entries n = serialize_entries n.network_nodes

parse_entries_tests :
    (parse_entries (codes "7000=Alive,,=Alive,7001=Dead,")
      ≡ (codes "7000", alive) ∷ (codes "7001", dead) ∷ [])
    × (parse_entries (codes " 7000 = Alive , 7001 = dead ")
        ≡ (codes "7000", alive) ∷ (codes "7001", dead) ∷ [])
    × (parse_entries (codes "7000=Maybe") ≡ (codes "7000", alive) ∷ [])
    × (serialize_entries ((codes "7002", alive) ∷ (codes "7000", dead) ∷ (codes "7001", alive) ∷ [])
        ≡ codes "7000=Dead,7001=Alive,7002=Alive")
unfolding parse_entries read_entry read_status serialize_entries entry_text split splitn trim insert
    get join sort_keys
parse_entries_tests = (refl, refl, refl, refl)
