-- ===== src/Server/Pull/Reassembly.antt =====
-- The output of `pull_file_from_ring` against the cut of `handle_file_push` (src/server.rs).
use ouroboros_fs.Base.{
  ℕ, suc, ◌+◌, ◌≤◌, ◌≡◌, refl, ap, ◌∙◌, false, List, [], ◌∷◌, none, some, length, take, drop,
  take_add, length-take, arith, ltb,
}
use ouroboros_fs.Text.{Text, codes}
use ouroboros_fs.Text.Decimal.{decimal}
use ouroboros_fs.Map.{Map, get}
use ouroboros_fs.Node.{Node, FileTag}
use ouroboros_fs.Node.Address.{address, host_of, port_str}
use ouroboros_fs.Node.Send.{Net}
use ouroboros_fs.Server.Chunk.{fair_chunk_len}
use ouroboros_fs.Server.Chunk.Lengths.{span, span_total}
use ouroboros_fs.Server.Push.{target_addrs}
use ouroboros_fs.Server.Push.Targets.{pull_plan_complete}
use ouroboros_fs.Server.Pull.{
  Fetch, Planned, predecessors, pull_plan, chunk_bytes, drain, with_trailer, pull_file_from_ring,
  settle, from_backup, handle_file_pull, pull,
}

-- How the bytes of a planned chunk can be had: from its owner, or, when the owner fails, from the
-- backup of the node before it.
pub data Serves (fetch : Fetch) (preds : Map Text) (host : Text) (p : Planned) (bytes : List ℕ)
    : Type 0 where
  by_owner : fetch.content p.owner_addr p.chunk ≡ some bytes → Serves fetch preds host p bytes
  by_predecessor :
      (pred : Text)
      → fetch.content p.owner_addr p.chunk ≡ none
      → get preds p.owner_port ≡ some pred
      → fetch.backup (address host pred) p.chunk ≡ some bytes
      → Serves fetch preds host p bytes

-- Every chunk of a plan can be had, each with its piece of the file from chunk `i` on.
abbrev pub Available : Fetch → Map Text → Text → ℕ → ℕ → ℕ → List ℕ → List Planned → Type 0
Available fetch preds host size parts i file [] = Unit
Available fetch preds host size parts i file (p ∷ plan) =
    Serves fetch preds host p (take (fair_chunk_len i size parts) file)
    × Available fetch preds host size parts (i + 1) (drop (fair_chunk_len i size parts) file) plan

module _ (fetch : Fetch) (preds : Map Text) (host : Text) where
  Serves-chunk_bytes :
      (p : Planned) (bytes : List ℕ)
      → Serves fetch preds host p bytes
      → chunk_bytes fetch preds host p ≡ bytes
  unfolding chunk_bytes from_backup
  Serves-chunk_bytes p bytes (by_owner e) = rw (chunk_bytes, e)
  Serves-chunk_bytes p bytes (by_predecessor pred e g b) =
      rw (chunk_bytes, e, g) (rw (from_backup, b))

  drain-Available :
      (size parts i : ℕ) (file : List ℕ) (plan : List Planned)
      → Available fetch preds host size parts i file plan
      → drain fetch preds host plan ≡ take (span i (length plan) size parts) file
  unfolding drain span
  drain-Available size parts i file [] h = refl
  drain-Available size parts i file (p ∷ plan) (s, h) =
      rw (Serves-chunk_bytes p _ s, drain-Available size parts (i + 1) _ plan h)
        (take_add (fair_chunk_len i size parts) (span (i + 1) (length plan) size parts) file)

whole_output : (body : List ℕ) (size : ℕ) → size ≤ length body → with_trailer body size ≡ body
unfolding with_trailer
whole_output body size h = let e : ltb (length body) size ≡ false = ground arith in rw e

settle-output :
    (net : Net) (n : Node) (output : List ℕ) (ports : List Text)
    → (settle net n output ports).output ≡ output
unfolding settle
settle-output net n output [] = refl
settle-output net n output (port ∷ ports) = refl

-- A pull whose topology leads to every owner, and whose chunks can each be had from the owner or,
-- when the owner fails, from the backup of the node before it, writes exactly the file, without a
-- trailer.
pub pull_file-Available :
    (net : Net) (fetch : Fetch) (n : Node) (name start : Text) (k size : ℕ) (addrs : List Text)
    (file : List ℕ)
    → target_addrs n.topology_map (host_of start) (port_str start) k ≡ some addrs
    → size ≤ length file
    → Available fetch
        (predecessors n.topology_map)
        (host_of start)
        size
        (suc k)
        0
        file
        (pull_plan n.topology_map (host_of start) name (suc k) start (port_str start) 0 (suc k))
    → (pull_file_from_ring net fetch n name start (suc k) size).output ≡ take size file
unfolding pull_file_from_ring
pull_file-Available net fetch n name start k size addrs file ht hs av =
    settle-output net n _ _
    ∙ ap (λ b. with_trailer b size)
        (drain-Available fetch (predecessors n.topology_map) (host_of start) size (suc k) 0 file _
            av
          ∙ rw
              (pull_plan_complete n.topology_map (host_of start) name start (port_str start) (suc k)
                0 k addrs ht)
              (ap (λ l. take l file) (span_total size (suc k) (omega arith))))
    ∙ whole_output (take size file) size (omega (arith, length-take size file))

-- A name without a tag is answered at once.
pub pull_missing :
    (net : Net) (fetch : Fetch) (n : Node) (name : Text)
    → get n.file_tags name ≡ none
    → handle_file_pull net fetch n name
      ≡ record { node = n; output = codes "ERR file not found\n"; sent = [] }
unfolding handle_file_pull pull
pull_missing net fetch n name e = ap (pull net fetch n name) e

-- The node at which a file of a tag begins, by the node that serves the pull.
abbrev pub start_of : Node → FileTag → Text
start_of n t = address (host_of n.port) (decimal t.start)

-- A pull of a tagged file, all of whose chunks can be had.
pub pulled_whole :
    (net : Net) (fetch : Fetch) (n : Node) (name : Text) (k : ℕ) (t : FileTag) (addrs : List Text)
    (file : List ℕ)
    → get n.file_tags name ≡ some t
    → t.parts ≡ suc k
    → target_addrs n.topology_map (host_of (start_of n t)) (port_str (start_of n t)) k ≡ some addrs
    → t.size ≤ length file
    → Available fetch (predecessors n.topology_map) (host_of (start_of n t)) t.size (suc k) 0 file (
        pull_plan n.topology_map
          (host_of (start_of n t))
          name
          (suc k)
          (start_of n t)
          (port_str (start_of n t))
          0
          (suc k))
    → (handle_file_pull net fetch n name).output ≡ take t.size file
unfolding handle_file_pull pull
pulled_whole net fetch n name k t addrs file ht hp ha hs av =
    ap (λ o. (pull net fetch n name o).output) ht
    ∙ rw hp (pull_file-Available net fetch _ name (start_of n t) k t.size addrs file ha hs av)
