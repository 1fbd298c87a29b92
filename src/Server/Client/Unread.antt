-- ===== src/Server/Client/Unread.antt =====
-- What the handlers of src/server.rs leave of the byte stream: never more than they found.
use ouroboros_fs.Base.{ℕ, List, arith}
use ouroboros_fs.Protocol.Command.{
  Command, node_next, node_status, node_ping, node_metrics, node_heal, node_heal_hop,
  node_heal_done, ring_forward, topology_walk, topology_hop, topology_done, topology_set,
  netmap_discover, netmap_hop, netmap_done, netmap_set, netmap_get, file_push, file_pull, file_list,
  file_tags_set, file_push_chunk, file_get_chunk, file_backup_push, file_get_backup_chunk,
  file_content_push,
}
use ouroboros_fs.Node.{Node}
use ouroboros_fs.Server.Store.{
  Answer, response, dropped, handle_file_get_chunk, handle_file_get_backup_chunk,
}
use ouroboros_fs.Server.Store.Unread.{
  Leaves, push_chunk-Leaves, backup_push-Leaves, content_push-Leaves,
}
use ouroboros_fs.Server.Push.Unread.{push-Leaves}
use ouroboros_fs.Server.Walk.{Walking, answered, waiting, handle_topology_walk}
use ouroboros_fs.Server.Client.{
  Round, handle_command, by_outcome, by_walking, by_step, by_answer, by_pull, by_stored,
}

walking-Leaves :
    (r : Round) (reader : List ℕ) (w : Walking) → Leaves reader (by_walking r reader w).unread
unfolding by_walking by_outcome
walking-Leaves r reader (answered o) = omega arith
walking-Leaves r reader (waiting token n sent) = omega arith

answer-Leaves :
    (n : Node) (reader : List ℕ) (a : Answer) → Leaves reader (by_answer n reader a).unread
unfolding by_answer
answer-Leaves n reader (response header body) = omega arith
answer-Leaves n reader (dropped e) = omega arith

-- No handler leaves more of the stream than it found.
pub handle_command-Leaves :
    (sha256 : List ℕ → List ℕ) (r : Round) (n : Node) (reader : List ℕ) (c : Command)
    → Leaves reader (handle_command sha256 r n reader c).unread
unfolding handle_command by_outcome by_step by_pull by_stored
handle_command-Leaves sha256 r n reader (node_next a) = omega arith
handle_command-Leaves sha256 r n reader node_status = omega arith
handle_command-Leaves sha256 r n reader node_ping = omega arith
handle_command-Leaves sha256 r n reader node_metrics = omega arith
handle_command-Leaves sha256 r n reader node_heal = omega arith
handle_command-Leaves sha256 r n reader (node_heal_hop t a) = omega arith
handle_command-Leaves sha256 r n reader (node_heal_done t) = omega arith
handle_command-Leaves sha256 r n reader (ring_forward k m) = omega arith
handle_command-Leaves sha256 r n reader (topology_hop t a h) = omega arith
handle_command-Leaves sha256 r n reader (topology_done t h) = omega arith
handle_command-Leaves sha256 r n reader (topology_set h) = omega arith
handle_command-Leaves sha256 r n reader netmap_discover = omega arith
handle_command-Leaves sha256 r n reader (netmap_hop t a e) = omega arith
handle_command-Leaves sha256 r n reader (netmap_done t e) = omega arith
handle_command-Leaves sha256 r n reader (netmap_set e) = omega arith
handle_command-Leaves sha256 r n reader netmap_get = omega arith
handle_command-Leaves sha256 r n reader (file_pull f) = omega arith
handle_command-Leaves sha256 r n reader file_list = omega arith
handle_command-Leaves sha256 r n reader (file_tags_set e) = omega arith
handle_command-Leaves sha256 r n reader topology_walk =
    walking-Leaves r reader (handle_topology_walk r.net n)
handle_command-Leaves sha256 r n reader (file_push size f) =
    push-Leaves sha256 r.links n reader size f
handle_command-Leaves sha256 r n reader (file_push_chunk f a b p i s) =
    push_chunk-Leaves sha256 n reader f a b p i s
handle_command-Leaves sha256 r n reader (file_get_chunk f) =
    answer-Leaves n reader (handle_file_get_chunk sha256 n f)
handle_command-Leaves sha256 r n reader (file_backup_push f size) =
    backup_push-Leaves sha256 n reader f size
handle_command-Leaves sha256 r n reader (file_get_backup_chunk f) =
    answer-Leaves n reader (handle_file_get_backup_chunk sha256 n f)
handle_command-Leaves sha256 r n reader (file_content_push f size) =
    content_push-Leaves sha256 n reader f size
