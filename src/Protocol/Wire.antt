-- ===== src/Protocol/Wire.antt =====
-- The lines that nodes, gateway and launcher write (`format!` in src/node.rs, src/server.rs,
-- src/gateway.rs and src/bin/main.rs), one for each command that the program itself sends.
use ouroboros_fs.Base.{[], ◌∷◌, ◌++◌}
use ouroboros_fs.Text.{Text, codes}
use ouroboros_fs.Text.Decimal.{decimal}
use ouroboros_fs.Protocol.Command.{
  Command, node_next, node_status, node_ping, node_metrics, node_heal, node_heal_hop,
  node_heal_done, ring_forward, topology_walk, topology_hop, topology_done, topology_set,
  netmap_discover, netmap_hop, netmap_done, netmap_set, netmap_get, file_push, file_pull, file_list,
  file_tags_set, file_push_chunk, file_get_chunk, file_backup_push, file_get_backup_chunk,
  file_content_push,
}

-- Two fields with a space between them.
infixr 66 ◌▸◌
abbrev pub ◌▸◌ : Text → Text → Text
a ▸ b = a ++ b' ' ∷ b

-- A line without its line break.
unfoldable pub body : Command → Text
body (node_next addr) = codes "NODE" ▸ codes "NEXT" ▸ addr
body node_status = codes "NODE STATUS"
body node_ping = codes "NODE PING"
body node_metrics = codes "NODE METRICS"
body node_heal = codes "NODE HEAL"
body (node_heal_hop token start) = codes "NODE" ▸ codes "HEAL-HOP" ▸ token ▸ start
body (node_heal_done token) = codes "NODE" ▸ codes "HEAL-DONE" ▸ token
body (ring_forward ttl msg) = codes "RING" ▸ codes "FORWARD" ▸ decimal ttl ▸ msg
body topology_walk = codes "TOPOLOGY WALK"
body (topology_hop token start history) = codes "TOPOLOGY" ▸ codes "HOP" ▸ token ▸ start ▸ history
body (topology_done token history) = codes "TOPOLOGY" ▸ codes "DONE" ▸ token ▸ history
body (topology_set history) = codes "TOPOLOGY" ▸ codes "SET" ▸ history
body netmap_discover = codes "NETMAP DISCOVER"
body (netmap_hop token start entries) = codes "NETMAP" ▸ codes "HOP" ▸ token ▸ start ▸ entries
body (netmap_done token entries) = codes "NETMAP" ▸ codes "DONE" ▸ token ▸ entries
body (netmap_set entries) = codes "NETMAP" ▸ codes "SET" ▸ entries
body netmap_get = codes "NETMAP GET"
body (file_push size name) = codes "FILE" ▸ codes "PUSH" ▸ decimal size ▸ name
body (file_pull name) = codes "FILE" ▸ codes "PULL" ▸ name
body file_list = codes "FILE LIST"
body (file_tags_set entries) = codes "FILE" ▸ codes "TAGS-SET" ▸ entries
body (file_push_chunk name chunk_size file_size parts index start_port) =
    codes "FILE"
    ▸ codes "PUSH-CHUNK"
    ▸ name
    ▸ decimal chunk_size
    ▸ decimal file_size
    ▸ decimal parts
    ▸ decimal index
    ▸ decimal start_port
body (file_get_chunk name) = codes "FILE" ▸ codes "GET-CHUNK" ▸ name
body (file_backup_push name size) = codes "FILE" ▸ codes "BACKUP-PUSH" ▸ name ▸ decimal size
body (file_get_backup_chunk name) = codes "FILE" ▸ codes "GET-BACKUP-CHUNK" ▸ name
body (file_content_push name size) = codes "FILE" ▸ codes "CONTENT-PUSH" ▸ name ▸ decimal size

unfoldable pub wire : Command → Text
unfolding body
wire c = body c ++ b'\n' ∷ []
