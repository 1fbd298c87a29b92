-- ===== src/Server/Store.antt =====
-- One node's chunks: the handlers PUSH-CHUNK, BACKUP-PUSH, CONTENT-PUSH, GET-CHUNK and
-- GET-BACKUP-CHUNK of src/server.rs, the push to the predecessor, and how an answer is read.
pub mod Answers
pub mod Unread
use ouroboros_fs.Base.{
  ℕ, zero, suc, ◌+◌, ◌%◌, ◌^◌, ◌≡◌, refl, Bool, true, false, not, List, [], ◌∷◌, ◌++◌, Option, none,
  some, ltb, if◌then◌else◌, length, take, drop, unwrap_or, Result, ok, err,
}
use ouroboros_fs.Text.{Text, codes, eq_text, trim_eol, strip_prefix}
use ouroboros_fs.Text.Pieces.{splitn, item}
use ouroboros_fs.Text.Decimal.{decimal, parse_uint, max_u64}
use ouroboros_fs.Map.{Map}
use ouroboros_fs.Node.{Node, Directory, get_next}
use ouroboros_fs.Node.Address.{port_str, host_of, address}
use ouroboros_fs.Node.Tags.{set_file_tag}
use ouroboros_fs.Node.Send.{Net, Sent}
use ouroboros_fs.Protocol.Command.{Command, file_backup_push}
use ouroboros_fs.Server.Chunk.{parent_name}
use ouroboros_fs.Server.Disk.{
  IoError, unexpected_eof, not_found, invalid_data, Written, durably_write_chunk,
  open_chunk_verified,
}

-- What a handler that reads a body leaves. `backed_up` names the chunks whose push to the
-- predecessor was started; `failed` is the error that ends the connection.
pub record Stored : Type 0 where
  pub node : Node
  pub reply : Text
  pub unread : List ℕ
  pub backed_up : List Text
  pub sent : List Sent
  pub failed : Option IoError

-- The `?` after a write: an error ends the handler without a reply.
unfoldable pub stored : Node → List ℕ → Text → List Text → Result ℕ IoError → Stored
stored n unread reply backed_up (ok size) = record {
  node = n;
  reply = reply;
  unread = unread;
  backed_up = backed_up;
  sent = [];
  failed = none;
}
stored n unread reply backed_up (err e) = record {
  node = n;
  reply = [];
  unread = unread;
  backed_up = [];
  sent = [];
  failed = some e;
}

abbrev pub in_content : Node → Directory → Node
in_content n dir = record n { content = dir }

abbrev pub in_backup : Node → Directory → Node
in_backup n dir = record n { backup = dir }

-- `port -> predecessor`: the first entry whose next hop is this node.
unfoldable pub find_predecessor : Map Text → Text → Option Text
find_predecessor [] my_port = none
find_predecessor ((from, to) ∷ m) my_port =
    if eq_text (port_str to) my_port then some from else find_predecessor m my_port

unfoldable pub get_predecessor_addr : Node → Option Text
get_predecessor_addr n = elim (find_predecessor n.topology_map (port_str n.port)) [
  | none ↦ none
  | some port ↦ some (address (host_of n.port) port)
]

backup_message : Node → Text → Text → List ℕ → Sent
backup_message n to name body = record {
  to = to;
  token = n.auth_token;
  command = file_backup_push name (length body);
  payload = body;
}

-- A header and the body behind it; an error drops the connection. A chunk that is missing is
-- announced with no bytes.
pub data Answer : Type 0 where
  response : (header : Text) (body : List ℕ) → Answer
  dropped : IoError → Answer

resp_header : Text → ℕ → Text → Text
resp_header next size name =
    codes "FILE RESP-CHUNK " ++ (next ++ b' ' ∷ (decimal size ++ b' ' ∷ (name ++ b'\n' ∷ [])))

answer : Text → Text → Result (List ℕ) IoError → Answer
unfolding resp_header
answer next name (ok body) = response (resp_header next (length body) name) body
answer next name (err not_found) = response (resp_header next 0 name) []
answer next name (err invalid_data) = dropped invalid_data
answer next name (err unexpected_eof) = dropped unexpected_eof

module _ (sha256 : List ℕ → List ℕ) where
  unfoldable pub handle_file_push_chunk : Node → List ℕ → Text → ℕ → ℕ → ℕ → ℕ → ℕ → Stored
  handle_file_push_chunk n reader name chunk_size file_size parts index start_port =
      let tagged = set_file_tag n (parent_name name) start_port file_size parts in
      let w = durably_write_chunk sha256 tagged.content name reader chunk_size tagged.fsync_mode in
      if not (ltb index parts)
      then record {
        node = n;
        reply = codes "ERR bad FILE PUSH-CHUNK index\n";
        unread = reader;
        backed_up = [];
        sent = [];
        failed = none;
      }
      else stored (in_content tagged w.directory) w.unread (codes "OK\n") (name ∷ []) w.result

  unfoldable pub handle_file_backup_push : Node → List ℕ → Text → ℕ → Stored
  handle_file_backup_push n reader name size =
      let w = durably_write_chunk sha256 n.backup name reader size n.fsync_mode in
      stored (in_backup n w.directory) w.unread (codes "OK\n") [] w.result

  unfoldable pub handle_file_content_push : Node → List ℕ → Text → ℕ → Stored
  handle_file_content_push n reader name size =
      let w = durably_write_chunk sha256 n.content name reader size n.fsync_mode in
      stored (in_content n w.directory) w.unread (codes "OK\n") [] w.result

  unfoldable pub handle_file_get_chunk : Node → Text → Answer
  unfolding answer
  handle_file_get_chunk n name =
      answer (unwrap_or (get_next n) n.port) name (open_chunk_verified sha256 n.content name)

  unfoldable pub handle_file_get_backup_chunk : Node → Text → Answer
  unfolding answer
  handle_file_get_backup_chunk n name =
      answer (unwrap_or (get_next n) n.port) name (open_chunk_verified sha256 n.backup name)

  shipped : Net → Node → Text → Option Text → Result (List ℕ) IoError → List Sent
  unfolding backup_message
  shipped net n name none body = []
  shipped net n name (some pred) (err e) = []
  shipped net n name (some pred) (ok body) =
      if net.up pred then backup_message n pred name body ∷ [] else []

  unfoldable pub push_to_predecessor : Net → Node → Text → List Sent
  unfolding shipped
  push_to_predecessor net n name =
      shipped net n name (get_predecessor_addr n) (open_chunk_verified sha256 n.content name)

-- `read_exact`: all the bytes, or an error.
read_exact : ℕ → List ℕ → Option (List ℕ)
read_exact size bytes = if ltb (length bytes) size then none else some (take size bytes)

sized : Option ℕ → List ℕ → Option (List ℕ)
unfolding read_exact
sized none bytes = none
sized (some size) bytes = read_exact size bytes

read_fields : Option Text → List ℕ → Option (List ℕ)
unfolding sized
read_fields none bytes = none
read_fields (some rest) bytes = sized (parse_uint max_u64 (item (splitn 3 b' ' rest) 1)) bytes

-- The half of `request_chunk_from` and `request_backup_chunk_from` that reads: a header line, then
-- what follows it. The next address and the echoed name are not used.
unfoldable pub read_response : Text → List ℕ → Option (List ℕ)
unfolding read_fields
read_response header bytes =
    read_fields (strip_prefix (codes "FILE RESP-CHUNK ") (trim_eol header)) bytes

-- The client's end of a request whose connection was taken.
unfoldable pub received : Answer → Option (List ℕ)
received (response header bytes) = read_response header bytes
received (dropped e) = none
