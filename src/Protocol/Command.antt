-- ===== src/Protocol/Command.antt =====
-- `Command` of src/protocol.rs: the parsed form of one line.
use ouroboros_fs.Base.{ℕ}
use ouroboros_fs.Text.{Text}

pub data Command : Type 0 where
  node_next : (addr : Text) → Command
  node_status : Command
  node_ping : Command
  node_metrics : Command
  node_heal : Command
  node_heal_hop : (token start_addr : Text) → Command
  node_heal_done : (token : Text) → Command
  ring_forward : (ttl : ℕ) (msg : Text) → Command
  topology_walk : Command
  topology_hop : (token start_addr history : Text) → Command
  topology_done : (token history : Text) → Command
  topology_set : (history : Text) → Command
  netmap_discover : Command
  netmap_hop : (token start_addr entries : Text) → Command
  netmap_done : (token entries : Text) → Command
  netmap_set : (entries : Text) → Command
  netmap_get : Command
  file_push : (size : ℕ) (name : Text) → Command
  file_pull : (name : Text) → Command
  file_list : Command
  file_tags_set : (entries : Text) → Command
  file_push_chunk : (name : Text) (chunk_size file_size parts index start_port : ℕ) → Command
  file_get_chunk : (name : Text) → Command
  file_backup_push : (name : Text) (size : ℕ) → Command
  file_get_backup_chunk : (name : Text) → Command
  file_content_push : (name : Text) (size : ℕ) → Command
