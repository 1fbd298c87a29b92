-- ===== src/Protocol/RoundTrip.antt =====
-- `parse_line` of src/protocol.rs on the line of each command.
mod Ring
mod File
use Ring.{
  node_next_lem, node_heal_hop_lem, node_heal_done_lem, ring_forward_lem, topology_hop_lem,
  topology_done_lem, topology_set_lem, netmap_hop_lem, netmap_done_lem, netmap_set_lem,
}
use File.{
  file_pull_lem, file_get_chunk_lem, file_get_backup_chunk_lem, file_tags_set_lem, file_push_lem,
  file_backup_push_lem, file_content_push_lem, file_push_chunk_lem,
}
use ouroboros_fs.Base.{◌≡◌, refl, ok}
use ouroboros_fs.Text.{trim_eol}
use ouroboros_fs.Text.Pieces.{splitn}
use ouroboros_fs.Protocol.Command.{
  Command, node_next, node_status, node_ping, node_metrics, node_heal, node_heal_hop,
  node_heal_done, ring_forward, topology_walk, topology_hop, topology_done, topology_set,
  netmap_discover, netmap_hop, netmap_done, netmap_set, netmap_get, file_push, file_pull, file_list,
  file_tags_set, file_push_chunk, file_get_chunk, file_backup_push, file_get_backup_chunk,
  file_content_push,
}
use ouroboros_fs.Protocol.Parse.{
  parse_line, dispatch, parse_node_cmd, parse_topology_cmd, parse_netmap_cmd, parse_file_cmd,
}
use ouroboros_fs.Protocol.Wire.{wire}
use ouroboros_fs.Protocol.Sendable.{IsSendable, Clean-white}

-- The line written for a command is parsed as that command, for fields without white space, valid
-- names, numbers that fit their types and free text without a line break.
pub parse_line-wire : (c : Command) → IsSendable c → parse_line (wire c) ≡ ok c
unfolding parse_line dispatch parse_node_cmd parse_topology_cmd parse_netmap_cmd parse_file_cmd wire
    trim_eol splitn
parse_line-wire (node_next a) f = node_next_lem a f
parse_line-wire (node_heal_hop t a) f = node_heal_hop_lem t a f.0 f.1
parse_line-wire (node_heal_done t) f = node_heal_done_lem t f
parse_line-wire (ring_forward n m) f = ring_forward_lem n m f.0 f.1
parse_line-wire (topology_hop t a h) f = topology_hop_lem t a h f.0 f.1 f.2
parse_line-wire (topology_done t h) f = topology_done_lem t h f.0 f.1
parse_line-wire (topology_set h) f = topology_set_lem h f
parse_line-wire (netmap_hop t a h) f = netmap_hop_lem t a h f.0 f.1 f.2
parse_line-wire (netmap_done t h) f = netmap_done_lem t h f.0 f.1
parse_line-wire (netmap_set s) f = netmap_set_lem s f (Clean-white s f)
parse_line-wire (file_push k n) f = file_push_lem k n f.0 f.1
parse_line-wire (file_pull n) f = file_pull_lem n f
parse_line-wire (file_tags_set s) f = file_tags_set_lem s f
parse_line-wire (file_push_chunk n a b c d e) f = file_push_chunk_lem n a b c d e f
parse_line-wire (file_get_chunk n) f = file_get_chunk_lem n f
parse_line-wire (file_backup_push n k) f = file_backup_push_lem n k f.0 f.1
parse_line-wire (file_get_backup_chunk n) f = file_get_backup_chunk_lem n f
parse_line-wire (file_content_push n k) f = file_content_push_lem n k f.0 f.1
parse_line-wire _ f = refl
