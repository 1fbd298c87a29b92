-- ===== src/Gateway/Files.antt =====
-- The list of files: `fetch_file_list` of src/gateway.rs, which reads the rows that a node writes.
pub mod Rows
use ouroboros_fs.Base.{
  ℕ, zero, suc, ◌+◌, Bool, true, false, List, [], ◌∷◌, ◌++◌, Option, none, some, ◌==◌,
  if◌then◌else◌, length, unwrap_or, Result, ok, err,
}
use ouroboros_fs.Text.{Text, codes, trim, is_empty, trim_start_matches, trim_end_matches}
use ouroboros_fs.Text.Pieces.{splitn, item}
use ouroboros_fs.Text.Decimal.{parse_uint, max_u16, max_u64}
use ouroboros_fs.Text.Utf8.{read_until_newline, from_utf8}
use ouroboros_fs.Protocol.Command.{file_list}
use ouroboros_fs.Gateway.Ring.{
  Gateway, Nodes, Contact, asks, command_bytes, connect_to_ring, unreachable, joined,
}

pub record FileInfo : Type 0 where
  pub name : Text
  pub start : ℕ
  pub size : ℕ

-- `trim_matches('"')`
unfoldable pub unquoted : Text → Text
unquoted s = trim_end_matches (λ c. c == b'"') (trim_start_matches (λ c. c == b'"') s)

-- One row: cut at the first two commas. A number that does not parse is 0.
unfoldable pub read_row : Text → List FileInfo
read_row line =
    let parts = splitn 3 b',' (trim line) in
    if length parts == 3
    then record {
      name = unquoted (item parts 0);
      start = unwrap_or (parse_uint max_u16 (item parts 1)) 0;
      size = unwrap_or (parse_uint max_u64 (item parts 2)) 0;
    }
      ∷ []
    else []

abbrev not_text : Text
not_text = codes "stream did not contain valid UTF-8"

-- Rows in front of what the rest of the loop finds.
rows_before : List FileInfo → Result (List FileInfo) Text → Result (List FileInfo) Text
rows_before rows (ok more) = ok (rows ++ more)
rows_before rows (err e) = err e

row_text : Result (List FileInfo) Text → Option Text → Result (List FileInfo) Text
unfolding rows_before
row_text rest none = err not_text
row_text rest (some line) = if is_empty (trim line) then ok [] else rows_before (read_row line) rest

row_line : (List ℕ → Result (List FileInfo) Text) → List ℕ × List ℕ → Result (List FileInfo) Text
unfolding row_text
row_line next ([], reader) = ok []
row_line next (b ∷ line, reader) = row_text (next reader) (from_utf8 (b ∷ line))

-- `while read_line > 0`. Each round takes a byte, so a round for each byte and one more are enough.
unfoldable pub read_rows : ℕ → List ℕ → Result (List FileInfo) Text
unfolding row_line
read_rows zero reader = ok []
read_rows (suc fuel) reader = row_line (read_rows fuel) (read_until_newline reader)

-- The line of the column names is read and passed over.
behind_names : List ℕ → Option Text → Result (List FileInfo) Text
behind_names reader none = err not_text
behind_names reader (some line) = read_rows (length reader + 1) reader

unfoldable pub read_file_list : List ℕ → Result (List FileInfo) Text
unfolding behind_names
read_file_list bytes = let cut = read_until_newline bytes in behind_names cut.1 (from_utf8 cut.0)

unfoldable pub fetch_file_list : Gateway → Nodes → Result (List FileInfo) Text × List Contact
fetch_file_list g nodes = elim (connect_to_ring nodes g.node_addrs) [
  | none ↦ (err unreachable, [])
  | some addr ↦ (
    read_file_list (joined (nodes.answers addr (command_bytes file_list []))),
    asks g addr (command_bytes file_list []) ∷ [],
  )
]
