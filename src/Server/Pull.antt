-- ===== src/Server/Pull.antt =====
-- FILE PULL: `handle_file_pull` and `pull_file_from_ring` of src/server.rs. The fetches run side by
-- side but their results are drained in the order of the chunks, so they are looked up one by one.
pub mod Reassembly
use ouroboros_fs.Base.{
  ℕ, zero, suc, ◌+◌, ◌-◌, ◌%◌, ◌^◌, ◌≡◌, refl, Bool, true, false, not, List, [], ◌∷◌, ◌++◌, Option,
  none, some, ◌==◌, ltb, if◌then◌else◌, length, take, drop,
}
use ouroboros_fs.Text.{Text, codes, as_bytes}
use ouroboros_fs.Text.Decimal.{decimal}
use ouroboros_fs.Map.{Map, get, insert, contains}
use ouroboros_fs.Node.{Node, FileTag}
use ouroboros_fs.Node.Status.{NodeStatus, dead}
use ouroboros_fs.Node.Address.{port_str, host_of, address}
use ouroboros_fs.Node.Netmap.{update_node_status}
use ouroboros_fs.Node.Send.{Net, Sent, broadcast_netmap_update}
use ouroboros_fs.Server.Chunk.{chunk_file_name}

-- What the network gives: `request_chunk_from` and `request_backup_chunk_from`, by the address and
-- the chunk's name.
pub record Fetch : Type 0 where
  pub content : Text → Text → Option (List ℕ)
  pub backup : Text → Text → Option (List ℕ)

-- `predecessor_of`, filled in the order in which the topology is iterated.
reverse : Map Text → Map Text → Map Text
reverse acc [] = acc
reverse acc ((from, to) ∷ m) = reverse (insert acc (port_str to) from) m

unfoldable pub predecessors : Map Text → Map Text
unfolding reverse
predecessors topology = reverse [] topology

-- One chunk to fetch.
pub record Planned : Type 0 where
  pub chunk : Text
  pub owner_addr : Text
  pub owner_port : Text

-- Chunk `i` lies at hop `i` from the start; the plan stops where the topology does.
unfoldable pub pull_plan : Map Text → Text → Text → ℕ → Text → Text → ℕ → ℕ → List Planned
pull_plan topology host name parts addr port i zero = []
pull_plan topology host name parts addr port i (suc k) =
    record { chunk = chunk_file_name name i parts; owner_addr = addr; owner_port = port }
    ∷ elim (get topology port) [
      | none ↦ []
      | some next ↦ pull_plan topology host name parts (address host next) next (i + 1) k
    ]

-- The backup of a chunk whose owner failed: of the node before it, or nothing.
from_backup : Fetch → Text → Text → Option Text → List ℕ
from_backup fetch host chunk none = []
from_backup fetch host chunk (some pred) = elim (fetch.backup (address host pred) chunk) [
  | none ↦ []
  | some bytes ↦ bytes
]

unfoldable pub chunk_bytes : Fetch → Map Text → Text → Planned → List ℕ
unfolding from_backup
chunk_bytes fetch preds host p = elim (fetch.content p.owner_addr p.chunk) [
  | none ↦ from_backup fetch host p.chunk (get preds p.owner_port)
  | some bytes ↦ bytes
]

-- A `HashSet`: an owner that fails is added once.
unfoldable pub failed_ports : Fetch → List Text → List Planned → List Text
failed_ports fetch acc [] = acc
failed_ports fetch acc (p ∷ plan) = elim (fetch.content p.owner_addr p.chunk) [
  | none ↦ failed_ports fetch (if contains p.owner_port acc then acc else p.owner_port ∷ acc) plan
  | some bytes ↦ failed_ports fetch acc plan
]

unfoldable pub drain : Fetch → Map Text → Text → List Planned → List ℕ
drain fetch preds host [] = []
drain fetch preds host (p ∷ plan) = chunk_bytes fetch preds host p ++ drain fetch preds host plan

-- The trailer of an output that is shorter than the file.
unfoldable pub truncation_trailer : ℕ → ℕ → Text
truncation_trailer expected got =
    codes "\nERR truncated expected="
    ++ (decimal expected ++ (codes " got=" ++ (decimal got ++ codes "\n")))

unfoldable pub with_trailer : List ℕ → ℕ → List ℕ
with_trailer body file_size =
    if ltb (length body) file_size then body ++ truncation_trailer file_size (length body) else body

unfoldable pub mark_dead : Node → List Text → Node
mark_dead n [] = n
mark_dead n (port ∷ ports) = mark_dead (update_node_status n port dead) ports

-- What a pull leaves: the node, the bytes written to the client, and the netmap it broadcast.
pub record Pulled : Type 0 where
  pub node : Node
  pub output : List ℕ
  pub sent : List Sent

settle : Net → Node → List ℕ → List Text → Pulled
settle net n output [] = record { node = n; output = output; sent = [] }
settle net n output (port ∷ ports) =
    let done = broadcast_netmap_update net (mark_dead n (port ∷ ports)) in
    record { node = done.0; output = output; sent = done.1 }

unfoldable pub pull_file_from_ring : Net → Fetch → Node → Text → Text → ℕ → ℕ → Pulled
unfolding settle
pull_file_from_ring net fetch n name start_addr parts file_size =
    let topology = n.topology_map in
    let host = host_of start_addr in
    let plan = pull_plan topology host name parts start_addr (port_str start_addr) 0 parts in
    settle net n (with_trailer (drain fetch (predecessors topology) host plan) file_size)
      (failed_ports fetch [] plan)

pull : Net → Fetch → Node → Text → Option FileTag → Pulled
pull net fetch n name none = record { node = n; output = codes "ERR file not found\n"; sent = [] }
pull net fetch n name (some tag) =
    let counted = record n {
      pulls_total = (n.pulls_total + 1) % 2 ^ 64;
      chunk_bytes_read_total = (n.chunk_bytes_read_total + tag.size) % 2 ^ 64;
    } in
    pull_file_from_ring net fetch counted name (address (host_of n.port) (decimal tag.start))
      tag.parts tag.size

unfoldable pub handle_file_pull : Net → Fetch → Node → Text → Pulled
unfolding pull
handle_file_pull net fetch n name = pull net fetch n name (get n.file_tags name)
