-- ===== src/Examples/Download.antt =====
-- An example of a download from a ring of two nodes, one of which is down.
use ouroboros_fs.Base.{
  ℕ, ◌≡◌, refl, sym, ◌++◌, false, List, [], ◌∷◌, none, some, take, if◌then◌else◌, arith,
}
use ouroboros_fs.Text.{codes, as_bytes, eq_text}
use ouroboros_fs.Text.Decimal.{decimal}
use ouroboros_fs.Text.Pieces.{split, rsplit_once_str}
use ouroboros_fs.Map.{get, insert}
use ouroboros_fs.Node.{Node, FileTag}
use ouroboros_fs.Node.Address.{port_str, host_of}
use ouroboros_fs.Server.Chunk.{fair_chunk_len}
use ouroboros_fs.Server.Push.{target_addrs}
use ouroboros_fs.Server.Pull.{Fetch, predecessors, pull_plan, handle_file_pull}
use ouroboros_fs.Server.Pull.Reassembly.{
  Available, by_owner, by_predecessor, start_of, pulled_whole,
}
use ouroboros_fs.Gateway.Http.{send_file_response_headers}
use ouroboros_fs.Gateway.Stream.Windows.{concat}
use ouroboros_fs.Gateway.Download.{read_exact_or_eof, passed, sniffed}
use ouroboros_fs.Gateway.Download.Passes.Whole.{handle_file_pull-Available}
use ouroboros_fs.Examples.{address_a, address_b, node_a, all_up}

abbrev tag : FileTag
tag = record { start = 7000; size = 3; parts = 2 }

abbrev tagged : Node
tagged = record node_a { file_tags = (codes "a.txt", tag) ∷ [] }

abbrev file : List ℕ
file = 1 ∷ 2 ∷ 3 ∷ []

-- The second node is down; the first one has the backup of its chunk.
abbrev fetch : Fetch
fetch = record {
  content = λ addr chunk. if eq_text addr address_a then some (1 ∷ 2 ∷ []) else none;
  backup = λ addr chunk. if eq_text addr address_a then some (3 ∷ []) else none;
}

found : get tagged.file_tags (codes "a.txt") ≡ some tag
unfolding get
found = refl

targets :
    target_addrs tagged.topology_map
      (host_of (start_of tagged tag))
      (port_str (start_of tagged tag))
      1
    ≡ some (address_b ∷ [])
unfolding target_addrs get host_of port_str split decimal
targets = refl

available :
    Available fetch (predecessors tagged.topology_map) (host_of (start_of tagged tag)) 3 2 0 file (
      pull_plan tagged.topology_map
        (host_of (start_of tagged tag))
        (codes "a.txt")
        2
        (start_of tagged tag)
        (port_str (start_of tagged tag))
        0
        2)
unfolding pull_plan predecessors fair_chunk_len host_of port_str get insert split decimal
available = (by_owner refl, (by_predecessor (codes "7000") refl refl refl, tt))

abbrev blocks : List (List ℕ)
blocks = (1 ∷ []) ∷ (2 ∷ 3 ∷ []) ∷ []

blocks_are : concat blocks ≡ (handle_file_pull all_up fetch tagged (codes "a.txt")).output
blocks_are = sym (
    pulled_whole all_up fetch tagged (codes "a.txt") 1 tag (address_b ∷ []) file found refl targets
      (omega arith) available)

handle_file_pull-Available_example :
    sniffed (codes "a.txt") (read_exact_or_eof 4 blocks)
    ≡ passed (as_bytes (send_file_response_headers (codes "a.txt")) ++ take 3 file) false
unfolding rsplit_once_str
handle_file_pull-Available_example =
    handle_file_pull-Available all_up fetch tagged (codes "a.txt") 1 tag (address_b ∷ []) file
      blocks found refl targets (omega arith) available (refl, (refl, tt)) blocks_are refl refl
