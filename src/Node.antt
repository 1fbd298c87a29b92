-- ===== src/Node.antt =====
-- The state of one node, `Node` of src/node.rs, with its constructor and the fields that other code
-- reads. Locks and atomics are explicit state: a method takes the node and returns it.
pub mod Status
pub mod Address
pub mod Netmap
pub mod Topology
pub mod Tags
pub mod Walks
pub mod Send
use ouroboros_fs.Base.{
  ℕ, Bool, true, false, ◌||◌, [], List, Option, none, some, Result, ok, err, if◌then◌else◌,
}
use ouroboros_fs.Text.{Text, codes, eq_text, to_ascii_lowercase}
use ouroboros_fs.Map.{Map}
use ouroboros_fs.Auth.Token.{AuthToken}
use Status.{NodeStatus}

pub data FsyncMode : Type 0 where
  no_sync data_sync full_sync : FsyncMode

unfoldable pub syncs_file : FsyncMode → Bool
syncs_file no_sync = false
syncs_file data_sync = true
syncs_file full_sync = true

unfoldable pub syncs_dir : FsyncMode → Bool
syncs_dir no_sync = false
syncs_dir data_sync = false
syncs_dir full_sync = true

-- `FromStr`; the error's text is left out.
unfoldable pub fsync_from_str : Text → Option FsyncMode
fsync_from_str s =
    let lower = to_ascii_lowercase s in
    if eq_text lower (codes "none")
    then some no_sync
    else if eq_text lower (codes "data")
    then some data_sync
    else if eq_text lower (codes "full")
    then some full_sync
    else none

pub record FileTag : Type 0 where
  pub start : ℕ
  pub size : ℕ
  pub parts : ℕ

-- A directory of chunks: the bytes of each file.
abbrev pub Directory : Type 0
Directory = Map (List ℕ)

-- Durations are in milliseconds. `content` and `backup` are the two directories of the node below
-- `storage_root`; the channels that wait for a token are the keys of `pending_walks` and
-- `pending_heals`.
pub record Node : Type 0 where
  pub port : Text
  pub next_port : Option Text
  pub pending_walks : Map (Unit {0})
  pub walk_counter : ℕ
  pub pending_heals : Map (Unit {0})
  pub network_nodes : Map NodeStatus
  pub file_tags : Map FileTag
  pub gossip_interval : ℕ
  pub file_size : ℕ
  pub topology_map : Map Text
  pub storage_root : Text
  pub content : Directory
  pub backup : Directory
  pub respawn_dead : Bool
  pub fsync_mode : FsyncMode
  pub auth_token : AuthToken
  pub idle_timeout : ℕ
  pub max_conns : ℕ
  pub netmap_broadcasts : ℕ
  pub pushes_total : ℕ
  pub pulls_total : ℕ
  pub chunk_bytes_written_total : ℕ
  pub chunk_bytes_read_total : ℕ

-- `Node::new`; the directories are what the disk holds.
unfoldable pub new :
    Text → ℕ → ℕ → Text → Bool → FsyncMode → AuthToken → ℕ → ℕ → Directory → Directory → Node
new port gossip_interval file_size storage_root respawn_dead fsync_mode auth_token idle_timeout
      max_conns content backup =
    record {
      port = port;
      next_port = none;
      pending_walks = [];
      walk_counter = 1;
      pending_heals = [];
      network_nodes = [];
      file_tags = [];
      gossip_interval = gossip_interval;
      file_size = file_size;
      topology_map = [];
      storage_root = storage_root;
      content = content;
      backup = backup;
      respawn_dead = respawn_dead;
      fsync_mode = fsync_mode;
      auth_token = auth_token;
      idle_timeout = idle_timeout;
      max_conns = max_conns;
      netmap_broadcasts = 0;
      pushes_total = 0;
      pulls_total = 0;
      chunk_bytes_written_total = 0;
      chunk_bytes_read_total = 0;
    }

unfoldable pub set_next : Node → Text → Node
set_next n addr = record n { next_port = some addr }

unfoldable pub get_next : Node → Option Text
get_next n = n.next_port
