-- ===== src/Server/Client.antt =====
-- One client's connection: `handle_client` of src/server.rs. Other connections change the node
-- between two reads of this one; what they and the network do is a parameter of each round.
pub mod Session
pub mod Unread
pub mod Framing
use ouroboros_fs.Base.{
  ℕ, zero, suc, ◌+◌, Bool, true, false, not, ◌&&◌, List, [], ◌∷◌, ◌++◌, Option, none, some, ◌==◌,
  if◌then◌else◌, Result, ok, err,
}
use ouroboros_fs.Text.{Text, codes, as_bytes}
use ouroboros_fs.Text.Utf8.{read_until_newline, from_utf8}
use ouroboros_fs.Auth.Token.{is_enabled, Verdict, accepts, rejects, aborts, verify_auth_line}
use ouroboros_fs.Protocol.Command.{
  Command, node_next, node_status, node_ping, node_metrics, node_heal, node_heal_hop,
  node_heal_done, ring_forward, topology_walk, topology_hop, topology_done, topology_set,
  netmap_discover, netmap_hop, netmap_done, netmap_set, netmap_get, file_push, file_pull, file_list,
  file_tags_set, file_push_chunk, file_get_chunk, file_backup_push, file_get_backup_chunk,
  file_content_push,
}
use ouroboros_fs.Protocol.Parse.{parse_line}
use ouroboros_fs.Node.{Node}
use ouroboros_fs.Node.Send.{Net, Sent}
use ouroboros_fs.Server.Outcome.{Outcome}
use ouroboros_fs.Server.Control.{
  handle_node_next, handle_node_status, handle_node_ping, handle_node_metrics,
  handle_node_heal_done, handle_ring_forward, handle_file_tags_set, handle_file_list_csv,
  handle_error,
}
use ouroboros_fs.Server.Walk.{
  Walking, answered, waiting, Arrival, walk_reply, handle_topology_walk, handle_topology_hop,
  handle_topology_done, handle_topology_set,
}
use ouroboros_fs.Server.Discover.{
  handle_netmap_discover, handle_netmap_hop, handle_netmap_done, handle_netmap_set,
  handle_netmap_get,
}
use ouroboros_fs.Server.Disk.{IoError}
use ouroboros_fs.Server.Store.{
  Stored, Answer, response, dropped, handle_file_push_chunk, handle_file_backup_push,
  handle_file_content_push, handle_file_get_chunk, handle_file_get_backup_chunk,
  push_to_predecessor,
}
use ouroboros_fs.Server.Push.{Links, handle_file_push}
use ouroboros_fs.Server.Pull.{Fetch, Pulled, handle_file_pull}
use ouroboros_fs.Server.Heal.Death.{Surroundings, Process}
use ouroboros_fs.Server.Heal.Walk.{Step, Signal, heal_reply, handle_node_heal, handle_node_heal_hop}

-- What surrounds one round of the loop: the node after what other connections did to it, whether
-- the read of the line outlasts its timeout, and what the handlers meet.
pub record Round : Type 0 where
  pub others : Node → Node
  pub late : Bool
  pub net : Net
  pub links : Links
  pub fetch : Fetch
  pub arrival : Text → Arrival
  pub surroundings : Surroundings
  pub signal : Text → Signal

-- How a handler leaves the loop.
pub data After : Type 0 where
  goes_on breaks fails : After

pub record Handled : Type 0 where
  pub node : Node
  pub written : List ℕ
  pub unread : List ℕ
  pub sent : List Sent
  pub spawned : List Process
  pub after : After

unfoldable pub by_outcome : After → List ℕ → Outcome → Handled
by_outcome after reader o = record {
  node = o.node;
  written = as_bytes o.reply;
  unread = reader;
  sent = o.sent;
  spawned = [];
  after = after;
}

by_walking : Round → List ℕ → Walking → Handled
unfolding by_outcome
by_walking r reader (answered o) = by_outcome goes_on reader o
by_walking r reader (waiting token n sent) = record {
  node = n;
  written = as_bytes (walk_reply (r.arrival token));
  unread = reader;
  sent = sent;
  spawned = [];
  after = goes_on;
}

by_step : List ℕ → Text → Step → Handled
by_step reader reply s = record {
  node = s.node;
  written = as_bytes reply;
  unread = reader;
  sent = s.healing ++ s.forwarded;
  spawned = s.spawned;
  after = goes_on;
}

by_answer : Node → List ℕ → Answer → Handled
by_answer n reader (response header body) = record {
  node = n;
  written = as_bytes header ++ body;
  unread = reader;
  sent = [];
  spawned = [];
  after = goes_on;
}
by_answer n reader (dropped e) = record {
  node = n;
  written = [];
  unread = reader;
  sent = [];
  spawned = [];
  after = fails;
}

by_pull : List ℕ → Pulled → Handled
by_pull reader p = record {
  node = p.node;
  written = p.output;
  unread = reader;
  sent = p.sent;
  spawned = [];
  after = breaks;
}

-- The `?` of a handler that reads a body.
after_store : Option IoError → After
after_store none = goes_on
after_store (some e) = fails

module _ (sha256 : List ℕ → List ℕ) where
  -- The tasks that copy a stored chunk to the predecessor.
  backups : Net → Node → List Text → List Sent
  backups net n [] = []
  backups net n (name ∷ names) = push_to_predecessor sha256 net n name ++ backups net n names

  by_stored : Round → Stored → Handled
  unfolding after_store backups
  by_stored r s = record {
    node = s.node;
    written = as_bytes s.reply;
    unread = s.unread;
    sent = s.sent ++ backups r.net s.node s.backed_up;
    spawned = [];
    after = after_store s.failed;
  }

  -- The `match cmd`.
  unfoldable pub handle_command : Round → Node → List ℕ → Command → Handled
  unfolding by_outcome by_walking by_step by_answer by_pull by_stored
  handle_command r n reader (node_next addr) = by_outcome goes_on reader (handle_node_next n addr)
  handle_command r n reader node_status = by_outcome goes_on reader (handle_node_status n)
  handle_command r n reader node_ping = by_outcome goes_on reader (handle_node_ping n)
  handle_command r n reader node_metrics = by_outcome goes_on reader (handle_node_metrics n)
  handle_command r n reader node_heal =
      let started = handle_node_heal sha256 r.surroundings n in
      by_step reader (heal_reply (r.signal started.0)) started.1
  handle_command r n reader (node_heal_hop token start) =
      let hopped = handle_node_heal_hop sha256 r.surroundings n token start in
      by_step reader hopped.0 hopped.1
  handle_command r n reader (node_heal_done token) =
      by_outcome goes_on reader (handle_node_heal_done n token)
  handle_command r n reader (ring_forward ttl msg) =
      by_outcome goes_on reader (handle_ring_forward r.net n ttl msg)
  handle_command r n reader topology_walk = by_walking r reader (handle_topology_walk r.net n)
  handle_command r n reader (topology_hop token start history) =
      by_outcome goes_on reader (handle_topology_hop r.net n token start history)
  handle_command r n reader (topology_done token history) =
      by_outcome goes_on reader (handle_topology_done r.net n token history)
  handle_command r n reader (topology_set history) =
      by_outcome goes_on reader (handle_topology_set n history)
  handle_command r n reader netmap_discover =
      by_outcome goes_on reader (handle_netmap_discover r.net n)
  handle_command r n reader (netmap_hop token start entries) =
      by_outcome goes_on reader (handle_netmap_hop r.net n token start entries)
  handle_command r n reader (netmap_done token entries) =
      by_outcome goes_on reader (handle_netmap_done r.net n token entries)
  handle_command r n reader (netmap_set entries) =
      by_outcome goes_on reader (handle_netmap_set n entries)
  handle_command r n reader netmap_get = by_outcome goes_on reader (handle_netmap_get n)
  handle_command r n reader (file_push size name) =
      by_stored r (handle_file_push sha256 r.links n reader size name)
  handle_command r n reader (file_pull name) =
      by_pull reader (handle_file_pull r.net r.fetch n name)
  handle_command r n reader file_list = by_outcome breaks reader (handle_file_list_csv n)
  handle_command r n reader (file_tags_set entries) =
      by_outcome goes_on reader (handle_file_tags_set n entries)
  handle_command r n reader (file_push_chunk name chunk_size file_size parts index start_port) =
      by_stored r
        (handle_file_push_chunk sha256 n reader name chunk_size file_size parts index start_port)
  handle_command r n reader (file_get_chunk name) =
      by_answer n reader (handle_file_get_chunk sha256 n name)
  handle_command r n reader (file_backup_push name size) =
      by_stored r (handle_file_backup_push sha256 n reader name size)
  handle_command r n reader (file_get_backup_chunk name) =
      by_answer n reader (handle_file_get_backup_chunk sha256 n name)
  handle_command r n reader (file_content_push name size) =
      by_stored r (handle_file_content_push sha256 n reader name size)
