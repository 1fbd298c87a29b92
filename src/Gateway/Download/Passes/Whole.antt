-- ===== src/Gateway/Download/Passes/Whole.antt =====
-- A download of src/gateway.rs from a ring of src/server.rs that still has every chunk of the file.
use ouroboros_fs.Base.{
  ℕ, suc, ◌-◌, ◌≤◌, ◌≡◌, ap, ◌∙◌, false, List, ◌++◌, none, some, length, take, drop,
  take-append-drop,
}
use ouroboros_fs.Text.{Text, codes, eq_text, as_bytes}
use ouroboros_fs.Text.Pieces.{rsplit_once_str}
use ouroboros_fs.Map.{get}
use ouroboros_fs.Node.{Node, FileTag}
use ouroboros_fs.Node.Address.{host_of, port_str}
use ouroboros_fs.Node.Send.{Net}
use ouroboros_fs.Server.Push.{target_addrs}
use ouroboros_fs.Server.Pull.{Fetch, predecessors, pull_plan, handle_file_pull}
use ouroboros_fs.Server.Pull.Reassembly.{Available, start_of, pulled_whole}
use ouroboros_fs.Gateway.Http.{send_file_response_headers}
use ouroboros_fs.Gateway.Stream.{trailer_marker, max_trailer_len, inspect}
use ouroboros_fs.Gateway.Stream.Windows.{NoneEmpty, concat, window, inspected, streams}
use ouroboros_fs.Gateway.Download.{passed, read_exact_or_eof, stream_rest, sniffed}
use ouroboros_fs.Gateway.Download.Passes.{cut, streamed}

-- The end of a text holds no trailer.
abbrev pub NoTrailer : List ℕ → Type 0
NoTrailer xs = rsplit_once_str trailer_marker (drop (length xs - max_trailer_len) xs) ≡ none

inspected_plain : (xs : List ℕ) → NoTrailer xs → inspected xs ≡ (xs, false)
unfolding inspect
inspected_plain xs h =
    ap (inspect (window xs)) h
    ∙ ap (λ b. (b, false)) (take-append-drop (length xs - max_trailer_len) xs)

passed_whole :
    (filename : Text) (blocks : List (List ℕ)) (body : List ℕ)
    → NoneEmpty blocks
    → concat blocks ≡ body
    → eq_text (take 4 body) (codes "ERR ") ≡ false
    → NoTrailer (drop 4 body)
    → sniffed filename (read_exact_or_eof 4 blocks)
      ≡ passed (as_bytes (send_file_response_headers filename) ++ body) false
unfolding stream_rest
passed_whole filename blocks body h e ne plain =
    let c = cut 4 blocks h in
    let r = read_exact_or_eof 4 blocks in
    let front : r.0 ≡ take 4 body = c.front ∙ ap (take 4) e in
    let back : concat r.1 ≡ drop 4 body = c.back ∙ ap (drop 4) e in
    let head = as_bytes (send_file_response_headers filename) in
    streamed filename r.0 r.1 (rw front ne)
    ∙ ap (stream_rest filename r.0)
        (streams r.1 c.none_empty ∙ ap inspected back ∙ inspected_plain (drop 4 body) plain)
    ∙ ap (λ p. passed (head ++ (p ++ drop 4 body)) false) front
    ∙ ap (λ b. passed (head ++ b) false) (take-append-drop 4 body)

-- Whatever the blocks of the reads, none of them empty, a download from a node whose tag of the
-- file has one part or more, whose topology leads to every owner, and whose chunks can each be had
-- from the owner or, when the owner fails, from the backup of the node before it, passes on
-- exactly the file behind the headers, and reports no truncation, if the file does not begin with
-- `ERR ` and no trailer marker stands in the last 96 bytes behind its first four.
pub handle_file_pull-Available :
    (net : Net) (fetch : Fetch) (n : Node) (name : Text) (k : ℕ) (t : FileTag) (addrs : List Text)
    (file : List ℕ) (blocks : List (List ℕ))
    → get n.file_tags name ≡ some t
    → t.parts ≡ suc k
    → target_addrs n.topology_map (host_of (start_of n t)) (port_str (start_of n t)) k ≡ some addrs
    → t.size ≤ length file
    → Available fetch (predecessors n.topology_map) (host_of (start_of n t)) t.size (suc k) 0 file (
        pull_plan n.topology_map
          (host_of (start_of n t))
          name
          (suc k)
          (start_of n t)
          (port_str (start_of n t))
          0
          (suc k))
    → NoneEmpty blocks
    → concat blocks ≡ (handle_file_pull net fetch n name).output
    → eq_text (take 4 (take t.size file)) (codes "ERR ") ≡ false
    → NoTrailer (drop 4 (take t.size file))
    → sniffed name (read_exact_or_eof 4 blocks)
      ≡ passed (as_bytes (send_file_response_headers name) ++ take t.size file) false
handle_file_pull-Available net fetch n name k t addrs file blocks ht hp ha hs av h e ne plain =
    passed_whole name blocks (take t.size file) h
      (e ∙ pulled_whole net fetch n name k t addrs file ht hp ha hs av) ne plain
