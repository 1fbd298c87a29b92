-- ===== src/Server/Push.antt =====
-- The start node of FILE PUSH: `handle_file_push` of src/server.rs. The byte stream of the client is
-- a list; a read past its end ends the copy, as `copy` of a `take` does.
pub mod Targets
pub mod Unread
pub mod Distributes
use ouroboros_fs.Base.{
  ℕ, zero, suc, ◌+◌, ◌-◌, ◌%◌, ◌^◌, ◌≡◌, refl, Bool, true, false, not, ◌&&◌, List, [], ◌∷◌, ◌++◌,
  Option, none, some, ◌==◌, ltb, leb, if◌then◌else◌, length, take, drop, all, unwrap_or, Result, ok,
  err,
}
use ouroboros_fs.Text.{Text, codes, trim_start_matches, is_whitespace, strip_prefix}
use ouroboros_fs.Text.Decimal.{decimal, parse_uint, max_u16}
use ouroboros_fs.Map.{Map, get}
use ouroboros_fs.Node.{Node}
use ouroboros_fs.Node.Address.{port_str, host_of, address}
use ouroboros_fs.Node.Netmap.{network_size}
use ouroboros_fs.Node.Tags.{set_file_tag}
use ouroboros_fs.Node.Send.{Net, Sent}
use ouroboros_fs.Protocol.Command.{Command, file_push_chunk}
use ouroboros_fs.Server.Chunk.{fair_chunk_len, chunk_file_name}
use ouroboros_fs.Server.Disk.{IoError, Written, durably_write_chunk}
use ouroboros_fs.Server.Store.{Stored, stored}

-- What a chunk's owner answers within 30 s.
pub data Ack : Type 0 where
  line : Text → Ack
  nothing_came io_error : Ack

-- The connections of one push: which open, take the header, take the body, how much of a body was read
-- off the stream before its connection failed, and what they answer.
pub record Links : Type 0 where
  pub connects : Text → Bool
  pub takes_header : Text → Bool
  pub takes_body : Text → Bool
  pub read_before : Text → ℕ
  pub answers : Text → Ack

-- The owners of the chunks after the first: one hop of the topology for each.
unfoldable pub onwards : Text → Option (List Text) → Option (List Text)
onwards addr none = none
onwards addr (some addrs) = some (addr ∷ addrs)

unfoldable pub target_addrs : Map Text → Text → Text → ℕ → Option (List Text)
unfolding onwards
target_addrs topology host current zero = some []
target_addrs topology host current (suc k) = elim (get topology current) [
  | none ↦ none
  | some next ↦ onwards (address host next) (target_addrs topology host next k)
]

-- The file that is pushed, as every header names it.
pub record Pushed : Type 0 where
  pub name : Text
  pub size : ℕ
  pub parts : ℕ
  pub start_port : ℕ

-- The connection of chunk `index`, with its header and the bytes that went through it.
unfoldable pub chunk_message : Node → Pushed → ℕ → Text → List ℕ → Sent
chunk_message n p index to payload = record {
  to = to;
  token = n.auth_token;
  command =
      file_push_chunk (chunk_file_name p.name index p.parts) (fair_chunk_len index p.size p.parts)
        p.size p.parts index p.start_port;
  payload = payload;
}

-- The headers that went out before one failed, or all.
unfoldable pub send_headers : Links → Node → Pushed → ℕ → List Text → List Sent
send_headers links n p index [] = []
send_headers links n p index (addr ∷ addrs) =
    let rest = send_headers links n p (index + 1) addrs in
    if links.takes_header addr then chunk_message n p index addr [] ∷ rest else []

pub record Streamed : Type 0 where
  pub sent : List Sent
  pub unread : List ℕ
  pub complete : Bool

abbrev with_sent : Sent → Streamed → Streamed
with_sent m s = record { sent = m ∷ s.sent; unread = s.unread; complete = s.complete }

-- What a failing copy read of a body: the limit of the reader holds.
read_at_most : ℕ → ℕ → ℕ
read_at_most k limit = if leb k limit then k else limit

-- The bodies in the order of the chunks; an empty one is passed over. What a connection took before
-- it failed is left out of the messages, but not of the stream.
unfoldable pub stream_chunks : Links → Node → Pushed → ℕ → List Text → List ℕ → Streamed
unfolding read_at_most
stream_chunks links n p index [] reader = record { sent = []; unread = reader; complete = true }
stream_chunks links n p index (addr ∷ addrs) reader =
    let chunk_size = fair_chunk_len index p.size p.parts in
    let empty = stream_chunks links n p (index + 1) addrs reader in
    let rest = stream_chunks links n p (index + 1) addrs (drop chunk_size reader) in
    if chunk_size == 0
    then with_sent (chunk_message n p index addr []) empty
    else if links.takes_body addr
    then with_sent (chunk_message n p index addr (take chunk_size reader)) rest
    else record {
      sent = chunk_message n p index addr [] ∷ send_headers links n p (index + 1) addrs;
      unread = drop (read_at_most (links.read_before addr) chunk_size) reader;
      complete = false;
    }

-- `line.trim_start().starts_with("OK")`
starts_ok : Option Text → Bool
starts_ok none = false
starts_ok (some rest) = true

ack_error : Ack → Option Text
unfolding starts_ok
ack_error (line text) =
    if starts_ok (strip_prefix (codes "OK") (trim_start_matches is_whitespace text))
    then none
    else some (codes "ERR fan-out non-ok\n")
ack_error nothing_came = some (codes "ERR fan-out ack timeout\n")
ack_error io_error = some (codes "ERR fan-out ack io\n")

-- The first owner whose answer is not an OK decides.
unfoldable pub await_acks : Links → List Text → Option Text
unfolding ack_error
await_acks links [] = none
await_acks links (addr ∷ addrs) = elim (ack_error (links.answers addr)) [
  | none ↦ await_acks links addrs
  | some e ↦ some e
]

refused : Node → Text → List ℕ → List Sent → Stored
refused n reply unread sent = record {
  node = n;
  reply = reply;
  unread = unread;
  backed_up = [];
  sent = sent;
  failed = none;
}

-- The reply once every body is out.
unfoldable pub split_reply : Pushed → Option Text → Text
split_reply p (some e) = e
split_reply p none =
    codes "FILE "
    ++ (decimal p.size
        ++ (codes " bytes split into "
            ++ (decimal p.parts ++ codes " chunks and distributed\nOK\n")))

-- The single node: no line break ends the reply.
local_reply : Text → ℕ → Text
local_reply name size =
    codes "FILE " ++ (decimal size ++ (codes " bytes '" ++ (name ++ codes "' stored locally\nOK")))

after_stream : Links → Node → Pushed → List Text → Streamed → Stored
unfolding split_reply
after_stream links n p addrs s = record {
  node = n;
  reply =
      if s.complete
      then split_reply p (await_acks links addrs)
      else codes "ERR fan-out stream failed\n";
  unread = s.unread;
  backed_up = chunk_file_name p.name 0 p.parts ∷ [];
  sent = s.sent;
  failed = none;
}

-- The first chunk stays here; an error on the disk ends the connection.
first_chunk : Links → Node → Pushed → List Text → Written → Result ℕ IoError → Stored
unfolding after_stream
first_chunk links n p addrs w (err e) = record {
  node = n;
  reply = [];
  unread = w.unread;
  backed_up = [];
  sent = send_headers links n p 1 addrs;
  failed = some e;
}
first_chunk links n p addrs w (ok size) =
    after_stream links n p addrs (stream_chunks links n p 1 addrs w.unread)

module _ (sha256 : List ℕ → List ℕ) where
  fan_out : Links → Node → Pushed → List ℕ → List Text → Stored
  unfolding first_chunk refused
  fan_out links n p reader addrs =
      let w =
        durably_write_chunk sha256 n.content (chunk_file_name p.name 0 p.parts) reader
          (fair_chunk_len 0 p.size p.parts) n.fsync_mode in
      if not (all links.connects addrs)
      then refused n (codes "ERR fan-out connect failed\n") (drop p.size reader) []
      else if not (all links.takes_header addrs)
      then refused n (codes "ERR fan-out header write failed\n") (drop p.size reader)
          (send_headers links n p 1 addrs)
      else first_chunk links (record n { content = w.directory }) p addrs w w.result

  distribute : Links → Node → Pushed → List ℕ → Option (List Text) → Stored
  unfolding fan_out refused
  distribute links n p reader none =
      refused n (codes "ERR topology incomplete; cannot fan out\n") (drop p.size reader) []
  distribute links n p reader (some addrs) = fan_out links n p reader addrs

  store_locally : Node → Pushed → List ℕ → Stored
  unfolding local_reply
  store_locally n p reader =
      let chunk = chunk_file_name p.name 0 p.parts in
      let w = durably_write_chunk sha256 n.content chunk reader p.size n.fsync_mode in
      stored (record n { content = w.directory }) w.unread (local_reply p.name p.size) (chunk ∷ [])
        w.result

  -- The metrics and the tag of a push that is accepted. The counters are `AtomicU64`.
  unfoldable pub accept_push : Node → Pushed → Node
  accept_push n p =
      set_file_tag
        (record n {
          pushes_total = (n.pushes_total + 1) % 2 ^ 64;
          chunk_bytes_written_total = (n.chunk_bytes_written_total + p.size) % 2 ^ 64;
        })
        p.name p.start_port p.size p.parts

  too_large : Text → ℕ → ℕ → Text
  too_large name size limit =
      codes "ERR File size is too large ("
      ++ (decimal size ++ (codes " > " ++ (decimal limit ++ codes ")\n")))

  unfoldable pub handle_file_push : Links → Node → List ℕ → ℕ → Text → Stored
  unfolding too_large refused store_locally distribute
  handle_file_push links n reader size name =
      let p : Pushed = record {
        name = name;
        size = size;
        parts = network_size n % 2 ^ 32;
        start_port = unwrap_or (parse_uint max_u16 (port_str n.port)) 0;
      } in
      let accepted = accept_push n p in
      if ltb n.file_size size
      then refused n (too_large name size n.file_size) (drop size reader) []
      else if p.parts == 1
      then store_locally accepted p reader
      else distribute links accepted p reader
          (target_addrs n.topology_map (host_of n.port) (port_str n.port) (p.parts - 1))
