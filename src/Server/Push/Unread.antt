-- ===== src/Server/Push/Unread.antt =====
-- What the start node of a push leaves of the byte stream (`handle_file_push` of src/server.rs).
use ouroboros_fs.Base.{
  ℕ, ◌+◌, ◌-◌, ◌%◌, ◌^◌, unwrap_or, not, List, [], ◌∷◌, Option, none, some, ◌==◌, ltb, drop, all,
  arith, Bool-cases, inl, inr, Result, ok, err,
}
use ouroboros_fs.Text.{Text}
use ouroboros_fs.Node.{Node}
use ouroboros_fs.Server.Chunk.{fair_chunk_len, chunk_file_name}
use ouroboros_fs.Server.Disk.{IoError, Written, durably_write_chunk}
use ouroboros_fs.Server.Store.Unread.{Leaves, drop_le, either-Leaves, stored-Leaves, write-Leaves}
use ouroboros_fs.Server.Push.{
  Links, Pushed, read_at_most, stream_chunks, refused, after_stream, first_chunk, fan_out,
  distribute, store_locally, handle_file_push, accept_push, target_addrs,
}
use ouroboros_fs.Node.Netmap.{network_size}
use ouroboros_fs.Node.Address.{port_str, host_of}
use ouroboros_fs.Text.Decimal.{parse_uint, max_u16}

-- The bodies of a fan-out are cut off the stream in turn.
stream_le :
    (links : Links) (n : Node) (p : Pushed) (index : ℕ) (addrs : List Text) (reader : List ℕ)
    → Leaves reader (stream_chunks links n p index addrs reader).unread
unfolding stream_chunks
stream_le links n p index [] reader = omega arith
stream_le links n p index (addr ∷ addrs) reader =
    let size = fair_chunk_len index p.size p.parts in
    let same = stream_le links n p (index + 1) addrs reader in
    let cut = stream_le links n p (index + 1) addrs (drop size reader) in
    let less = drop_le size reader in
    elim (Bool-cases (size == 0)) [
      | inl e ↦ rw e same
      | inr e ↦ elim (Bool-cases (links.takes_body addr)) [
        | inl t ↦ rw (e, t) (omega (arith, cut, less))
        | inr t ↦ rw (e, t) (drop_le (read_at_most (links.read_before addr) size) reader)
      ]
    ]

first-Leaves :
    (reader : List ℕ) (links : Links) (n : Node) (p : Pushed) (addrs : List Text) (w : Written)
    (r : Result ℕ IoError)
    → Leaves reader w.unread
    → Leaves reader (first_chunk links n p addrs w r).unread
unfolding first_chunk after_stream
first-Leaves reader links n p addrs w (ok size) h =
    omega (arith, h, stream_le links n p 1 addrs w.unread)
first-Leaves reader links n p addrs w (err e) h = h

module _ (sha256 : List ℕ → List ℕ) where
  fan_out-Leaves :
      (links : Links) (n : Node) (p : Pushed) (reader : List ℕ) (addrs : List Text)
      → Leaves reader (fan_out sha256 links n p reader addrs).unread
  unfolding fan_out refused
  fan_out-Leaves links n p reader addrs =
      let w =
        durably_write_chunk sha256 n.content (chunk_file_name p.name 0 p.parts) reader
          (fair_chunk_len 0 p.size p.parts) n.fsync_mode in
      either-Leaves reader (not (all links.connects addrs)) _ _ (drop_le p.size reader) (
        either-Leaves reader (not (all links.takes_header addrs)) _ _ (drop_le p.size reader)
          (first-Leaves reader links _ p addrs w w.result (write-Leaves sha256 _ _ reader _ _)))

  distribute-Leaves :
      (links : Links) (n : Node) (p : Pushed) (reader : List ℕ) (o : Option (List Text))
      → Leaves reader (distribute sha256 links n p reader o).unread
  unfolding distribute refused
  distribute-Leaves links n p reader none = drop_le p.size reader
  distribute-Leaves links n p reader (some addrs) = fan_out-Leaves links n p reader addrs

  local-Leaves :
      (n : Node) (p : Pushed) (reader : List ℕ)
      → Leaves reader (store_locally sha256 n p reader).unread
  unfolding store_locally
  local-Leaves n p reader = stored-Leaves reader _ _ _ _ _ (write-Leaves sha256 _ _ reader p.size _)

  pub push-Leaves :
      (links : Links) (n : Node) (reader : List ℕ) (size : ℕ) (name : Text)
      → Leaves reader (handle_file_push sha256 links n reader size name).unread
  unfolding handle_file_push refused
  push-Leaves links n reader size name =
      let p : Pushed = record {
        name = name;
        size = size;
        parts = network_size n % 2 ^ 32;
        start_port = unwrap_or (parse_uint max_u16 (port_str n.port)) 0;
      } in
      let accepted = accept_push sha256 n p in
      let targets = target_addrs n.topology_map (host_of n.port) (port_str n.port) (p.parts - 1) in
      either-Leaves reader (ltb n.file_size size) _ _ (drop_le size reader) (
        either-Leaves reader (p.parts == 1) (store_locally sha256 accepted p reader)
          (distribute sha256 links accepted p reader targets) (local-Leaves accepted p reader)
          (distribute-Leaves links accepted p reader targets))
