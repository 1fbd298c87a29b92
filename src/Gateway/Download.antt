-- ===== src/Gateway/Download.antt =====
-- The download of a file: `handle_file_pull` and `read_exact_or_eof` of src/gateway.rs. A node's answer
-- is the list of blocks that the reads bring; an empty one ends it.
pub mod Passes
use ouroboros_fs.Base.{
  ℕ, zero, suc, ◌+◌, ◌-◌, Bool, true, false, not, ◌&&◌, List, [], ◌∷◌, ◌++◌, Option, none, some,
  ◌==◌, leb, if◌then◌else◌, length, take, drop, is_some, Result, ok, err,
}
use ouroboros_fs.Text.{Text, codes, eq_text, trim_eol, as_bytes}
use ouroboros_fs.Text.Pieces.{split_once_str}
use ouroboros_fs.Text.Utf8.{read_until_newline, from_utf8}
use ouroboros_fs.Protocol.Command.{file_pull}
use ouroboros_fs.Gateway.Http.{send_file_response_headers}
use ouroboros_fs.Gateway.Ring.{
  Gateway, Nodes, Contact, asks, command_bytes, connect_to_ring, unreachable, joined,
}
use ouroboros_fs.Gateway.Stream.{stream_with_truncation_detection}

-- The bytes that fill the buffer, and the blocks behind them.
unfoldable pub read_exact_or_eof : ℕ → List (List ℕ) → List ℕ × List (List ℕ)
read_exact_or_eof want [] = ([], [])
read_exact_or_eof want (block ∷ blocks) =
    let rest = read_exact_or_eof (want - length block) blocks in
    if want == 0
    then ([], block ∷ blocks)
    else if length block == 0
    then ([], blocks)
    else if leb (length block) want
    then (block ++ rest.0, rest.1)
    else (take want block, drop want block ∷ blocks)

-- What a download ends with: an error before anything was written, or what was, and whether a
-- trailer was cut off.
pub data Download : Type 0 where
  refused : Text → Download
  passed : (written : List ℕ) (truncated : Bool) → Download

-- A node's error. `contains("file not found")` tells the one that is no fault of the ring.
unfoldable pub error_text : Text → Text
error_text line =
    let combined = codes "ERR " ++ trim_eol line in
    if is_some (split_once_str (codes "file not found") combined)
    then codes "not found: " ++ combined
    else combined

error_line : Option Text → Download
error_line none = refused (codes "stream did not contain valid UTF-8")
error_line (some line) = refused (error_text line)

-- The rest of the answer behind the bytes that were sniffed.
stream_rest : Text → List ℕ → List ℕ × Bool → Download
stream_rest filename prefix (body, truncated) =
    passed (as_bytes (send_file_response_headers filename) ++ (prefix ++ body)) truncated

unfoldable pub sniffed : Text → List ℕ × List (List ℕ) → Download
unfolding error_line stream_rest
sniffed filename (prefix, blocks) =
    if leb 4 (length prefix) && eq_text prefix (codes "ERR ")
    then error_line (from_utf8 (read_until_newline (joined blocks)).0)
    else stream_rest filename prefix (stream_with_truncation_detection blocks)

unfoldable pub handle_file_pull : Gateway → Nodes → Text → Download × List Contact
handle_file_pull g nodes filename = elim (connect_to_ring nodes g.node_addrs) [
  | none ↦ (refused unreachable, [])
  | some addr ↦
      let request = command_bytes (file_pull filename) [] in
      (
        sniffed filename (read_exact_or_eof 4 (nodes.answers addr request)),
        asks g addr request ∷ [],
      )
]
