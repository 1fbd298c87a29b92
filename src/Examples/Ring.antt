-- ===== src/Examples/Ring.antt =====
-- Examples of the walk, the push and the pull in a ring of two nodes.
use ouroboros_fs.Base.{
  ◌%◌, ◌^◌, suc, true, ℕ, ◌≡◌, refl, List, [], ◌∷◌, none, some, if◌then◌else◌, take, map, ◌==◌,
  arith,
}
use ouroboros_fs.Text.{codes, eq_text}
use ouroboros_fs.Text.Pieces.{split}
use ouroboros_fs.Map.{get, insert}
use ouroboros_fs.Node.Address.{port_str, host_of}
use ouroboros_fs.Node.Topology.RoundTrip.{IsEnd}
use ouroboros_fs.Server.Walk.Ring.{Cluster, Linked, Between}
use ouroboros_fs.Server.Walk.Completes.{Completed, topology_walk-completes}
use ouroboros_fs.Text.{is_whitespace}
use ouroboros_fs.Node.Netmap.RoundTrip.{IsPortKey}
use ouroboros_fs.Server.Discover.Ring.{Follows}
use ouroboros_fs.Server.Discover.Completes.{Discovered, netmap_discover-Discovered}
use ouroboros_fs.Server.Push.{target_addrs, Links, line, handle_file_push}
use ouroboros_fs.Server.Push.Distributes.{
  Healthy, Distributed, pushed, handle_file_push-Distributed,
}
use ouroboros_fs.Node.Netmap.{network_size}
use ouroboros_fs.Node.Status.{alive}
use ouroboros_fs.Server.Push.Targets.{asked, owned, targets-pull_plan}
use ouroboros_fs.Server.Pull.{Fetch, predecessors, pull_plan, pull_file_from_ring}
use ouroboros_fs.Server.Pull.Reassembly.{Available, by_owner, by_predecessor, pull_file-Available}
use ouroboros_fs.Server.Chunk.{fair_chunk_len}
use ouroboros_fs.Node.{Node}
use ouroboros_fs.Examples.{
  digest, digest-IsDigest, free, address_a, address_b, ring_topology, node_a, node_b, all_up,
}

abbrev cluster : Cluster
cluster addr =
    if eq_text addr address_a
    then some node_a
    else if eq_text addr address_b
    then some node_b
    else none

port-IsEnd_a : IsEnd (port_str address_a)
unfolding port_str split
port-IsEnd_a = record {
  no_dash = free (λ c. c == b'-') (codes "7000") refl;
  no_semicolon = free (λ c. c == b';') (codes "7000") refl;
}

port-IsEnd_b : IsEnd (port_str address_b)
unfolding port_str split
port-IsEnd_b = record {
  no_dash = free (λ c. c == b'-') (codes "7001") refl;
  no_semicolon = free (λ c. c == b';') (codes "7001") refl;
}

Linked-a : Linked all_up address_a node_a (node_b ∷ [])
Linked-a = record { next = refl; reached = refl; port_end = port-IsEnd_a }

Between-b : Between all_up cluster address_a node_b []
unfolding port_str split
Between-b = record {
  linked = record { next = refl; reached = refl; port_end = port-IsEnd_b };
  known = refl;
  apart = refl;
}

topology_walk-completes_example : Completed all_up cluster node_a (node_a ∷ node_b ∷ [])
topology_walk-completes_example =
    topology_walk-completes all_up cluster node_a node_b [] Linked-a (Between-b, tt)

targets_found :
    target_addrs ring_topology (codes "127.0.0.1") (codes "7000") 1 ≡ some (address_b ∷ [])
unfolding target_addrs get
targets_found = refl

targets-pull_plan_example :
    map asked
      (pull_plan ring_topology (codes "127.0.0.1") (codes "a.txt") 2 address_a (codes "7000") 0 2)
    ≡ owned (codes "a.txt") 2 0 (address_a ∷ address_b ∷ [])
targets-pull_plan_example =
    targets-pull_plan ring_topology (codes "127.0.0.1") (codes "a.txt") address_a (codes "7000") 2 0
      1 (address_b ∷ []) targets_found

abbrev file : List ℕ
file = 1 ∷ 2 ∷ 3 ∷ []

-- The second node is down; the first one serves its own chunk and the backup of the other.
abbrev fetch : Fetch
fetch = record {
  content = λ addr chunk. if eq_text addr address_a then some (1 ∷ 2 ∷ []) else none;
  backup = λ addr chunk. if eq_text addr address_a then some (3 ∷ []) else none;
}

targets_of_a :
    target_addrs node_a.topology_map (host_of address_a) (port_str address_a) 1
    ≡ some (address_b ∷ [])
unfolding target_addrs get host_of port_str split
targets_of_a = refl

available : Available fetch (predecessors node_a.topology_map) (host_of address_a) 3 2 0 file (
    pull_plan node_a.topology_map
      (host_of address_a)
      (codes "a.txt")
      2
      address_a
      (port_str address_a)
      0
      2)
unfolding pull_plan predecessors fair_chunk_len host_of port_str get insert split
available = (by_owner refl, (by_predecessor (codes "7000") refl refl refl, tt))

pull_file-Available_example :
    (pull_file_from_ring all_up fetch node_a (codes "a.txt") address_a 2 3).output ≡ take 3 file
pull_file-Available_example =
    pull_file-Available all_up fetch node_a (codes "a.txt") address_a 1 3 (address_b ∷ []) file
      targets_of_a (omega arith) available

abbrev start : Node
start = record node_a { network_nodes = (codes "7000", alive) ∷ (codes "7001", alive) ∷ [] }

abbrev links : Links
links = record {
  connects = λ addr. true;
  takes_header = λ addr. true;
  takes_body = λ addr. true;
  read_before = λ addr. 0;
  answers = λ addr. line (codes "OK\n");
}

links-Healthy : Healthy links (address_b ∷ [])
links-Healthy = record {
  connecting = refl;
  header_taking = refl;
  body_taking = refl;
  acknowledging = (refl, tt);
}

two_nodes : network_size start % 2 ^ 32 ≡ suc (suc 0)
unfolding network_size
two_nodes = refl

targets_of_start :
    target_addrs start.topology_map (host_of start.port) (port_str start.port) 1
    ≡ some (address_b ∷ [])
unfolding target_addrs get host_of port_str split
targets_of_start = refl

handle_file_push-Distributed_example :
    Distributed digest
      (pushed start (codes "a.txt") 3)
      (address_b ∷ [])
      file
      (handle_file_push digest links start file 3 (codes "a.txt"))
handle_file_push-Distributed_example =
    handle_file_push-Distributed digest digest-IsDigest links start file 3 0 (codes "a.txt")
      (address_b ∷ []) (omega arith) (omega arith) two_nodes targets_of_start links-Healthy

key_a : IsPortKey (port_str address_a)
unfolding port_str split
key_a = record {
  plain = free is_whitespace (codes "7000") refl;
  present = refl;
  no_comma = free (λ c. c == b',') (codes "7000") refl;
  no_equals = free (λ c. c == b'=') (codes "7000") refl;
}

key_b : IsPortKey (port_str address_b)
unfolding port_str split
key_b = record {
  plain = free is_whitespace (codes "7001") refl;
  present = refl;
  no_comma = free (λ c. c == b',') (codes "7001") refl;
  no_equals = free (λ c. c == b'=') (codes "7001") refl;
}

Follows-b : Follows all_up cluster address_a node_b []
unfolding port_str split
Follows-b = record { next = refl; reached = refl; known = refl; apart = refl; key = key_b }

netmap_discover-Discovered_example : Discovered all_up cluster node_a (node_b ∷ [])
netmap_discover-Discovered_example =
    netmap_discover-Discovered all_up cluster node_a node_b [] refl refl key_a (Follows-b, tt)
