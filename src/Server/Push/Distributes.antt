-- ===== src/Server/Push/Distributes.antt =====
-- `handle_file_push` of src/server.rs on the branch where no owner fails.
use ouroboros_fs.Base.{
  ℕ, suc, ◌+◌, ◌-◌, ◌≤◌, ◌≡◌, refl, ap, ◌∙◌, ◌%◌, ◌^◌, true, false, List, [], ◌∷◌, none, some, ◌==◌,
  ==_iff, length, take, drop, drop_add, all, All, arith, Bool-cases, inl, inr, ok, ltb, unwrap_or,
}
use ouroboros_fs.Text.{Text, codes, trim_start_matches}
use ouroboros_fs.Text.Decimal.{parse_uint, max_u16}
use ouroboros_fs.Map.{get, get-insert_self}
use ouroboros_fs.Auth.Hmac.{IsDigest}
use ouroboros_fs.Node.{Node}
use ouroboros_fs.Node.Address.{port_str, host_of}
use ouroboros_fs.Node.Netmap.{network_size}
use ouroboros_fs.Node.Tags.{set_file_tag}
use ouroboros_fs.Node.Send.{Sent}
use ouroboros_fs.Server.Chunk.{fair_chunk_len, chunk_file_name}
use ouroboros_fs.Server.Chunk.Lengths.{span, span_total}
use ouroboros_fs.Server.Disk.{open_chunk_verified, durably_write_chunk}
use ouroboros_fs.Server.Disk.ReadBack.{open-durably_write_chunk, durably_write_chunk_whole}
use ouroboros_fs.Server.Store.{Stored}
use ouroboros_fs.Server.Push.{
  Links, line, Pushed, target_addrs, chunk_message, stream_chunks, Streamed, with_sent, await_acks,
  ack_error, starts_ok, split_reply, after_stream, first_chunk, fan_out, distribute, accept_push,
  handle_file_push,
}
use ouroboros_fs.Server.Push.Targets.{length-targets}

-- Every connection opens, takes header and body, and answers OK.
pub record Healthy (links : Links) (addrs : List Text) : Type 0 where
  pub connecting : all links.connects addrs ≡ true
  pub header_taking : all links.takes_header addrs ≡ true
  pub body_taking : all links.takes_body addrs ≡ true
  pub acknowledging : All (λ addr. links.answers addr ≡ line (codes "OK\n")) addrs

-- The pieces of a file from chunk `i` on, each to its owner.
abbrev pub pieces : Node → Pushed → ℕ → List Text → List ℕ → List Sent
pieces n p i [] file = []
pieces n p i (addr ∷ addrs) file =
    chunk_message n p i addr (take (fair_chunk_len i p.size p.parts) file)
    ∷ pieces n p (i + 1) addrs (drop (fair_chunk_len i p.size p.parts) file)

module _ (links : Links) (n : Node) (p : Pushed) where
  -- A round of the stream, whether its chunk is empty or not.
  stream_round :
      (i : ℕ) (addr : Text) (addrs : List Text) (reader : List ℕ)
      → links.takes_body addr ≡ true
      → stream_chunks links n p i (addr ∷ addrs) reader
        ≡ with_sent
            (chunk_message n p i addr (take (fair_chunk_len i p.size p.parts) reader))
            (stream_chunks links n p (i + 1) addrs (drop (fair_chunk_len i p.size p.parts) reader))
  unfolding stream_chunks
  stream_round i addr addrs reader h = elim (Bool-cases (fair_chunk_len i p.size p.parts == 0)) [
    | inl e ↦ let z = (==_iff (fair_chunk_len i p.size p.parts) 0).0 e in rw z
    | inr e ↦ rw (e, h)
  ]

  streamed : ℕ → List Text → List ℕ → Streamed
  streamed i addrs reader = record {
    sent = pieces n p i addrs reader;
    unread = drop (span i (length addrs) p.size p.parts) reader;
    complete = true;
  }

  stream_chunks_lem :
      (i : ℕ) (addrs : List Text) (reader : List ℕ)
      → all links.takes_body addrs ≡ true
      → stream_chunks links n p i addrs reader ≡ streamed i addrs reader
  unfolding stream_chunks streamed span
  stream_chunks_lem i [] reader h = refl
  stream_chunks_lem i (addr ∷ addrs) reader h =
      let c = fair_chunk_len i p.size p.parts in
      stream_round i addr addrs reader (ground arith)
      ∙ ap (with_sent (chunk_message n p i addr (take c reader)))
          (stream_chunks_lem (i + 1) addrs (drop c reader) (ground arith))
      ∙ ap (λ u. record { sent = pieces n p i (addr ∷ addrs) reader; unread = u; complete = true })
          (drop_add c (span (i + 1) (length addrs) p.size p.parts) reader)

acks_lem :
    (links : Links) (addrs : List Text)
    → All (λ addr. links.answers addr ≡ line (codes "OK\n")) addrs
    → await_acks links addrs ≡ none
unfolding await_acks ack_error starts_ok trim_start_matches
acks_lem links [] h = refl
acks_lem links (addr ∷ addrs) (a, h) = rw (await_acks, a) (acks_lem links addrs h)

-- What a push leaves when every piece went to its owner.
pub record Distributed (sha256 : List ℕ → List ℕ) (p : Pushed) (addrs : List Text) (file : List ℕ)
    (out : Stored) : Type 0 where
  pub kept :
      open_chunk_verified sha256 out.node.content (chunk_file_name p.name 0 p.parts)
      ≡ ok (take (fair_chunk_len 0 p.size p.parts) file)
  pub tagged :
      get out.node.file_tags p.name
      ≡ some (record { start = p.start_port; size = p.size; parts = p.parts })
  pub spread : out.sent ≡ pieces out.node p 1 addrs (drop (fair_chunk_len 0 p.size p.parts) file)
  pub left : out.unread ≡ drop p.size file
  pub backed : out.backed_up ≡ chunk_file_name p.name 0 p.parts ∷ []
  pub answered : out.reply ≡ split_reply p none
  pub well : out.failed ≡ none

module _ (sha256 : List ℕ → List ℕ) (links : Links) (n : Node) (p : Pushed) (addrs : List Text)
    (reader : List ℕ) where
  first_len : ℕ
  first_len = fair_chunk_len 0 p.size p.parts

  -- The node that keeps the first chunk.
  keeper : Node
  unfolding first_len
  keeper = record n {
    content =
        (durably_write_chunk sha256 n.content (chunk_file_name p.name 0 p.parts) reader first_len
          n.fsync_mode).directory;
  }

  fan_out_lem :
      Healthy links addrs
      → first_len ≤ length reader
      → fan_out sha256 links n p reader addrs
        ≡ after_stream links keeper p addrs
            (streamed links keeper p 1 addrs (drop first_len reader))
  unfolding fan_out first_chunk keeper first_len
  fan_out_lem h enough =
      let w =
        durably_write_chunk_whole sha256 n.content (chunk_file_name p.name 0 p.parts) reader
          first_len n.fsync_mode enough in
      rw (h.connecting, h.header_taking, w.0, w.1)
        (ap (after_stream links keeper p addrs)
          (stream_chunks_lem links keeper p 1 addrs (drop first_len reader) h.body_taking))

  after_stream-Distributed :
      IsDigest sha256
      → Healthy links addrs
      → first_len ≤ length reader
      → get n.file_tags p.name
        ≡ some (record { start = p.start_port; size = p.size; parts = p.parts })
      → span 0 (suc (length addrs)) p.size p.parts ≡ p.size
      → Distributed sha256 p addrs reader (
          after_stream links keeper p addrs
            (streamed links keeper p 1 addrs (drop first_len reader)))
  unfolding after_stream keeper first_len streamed span
  after_stream-Distributed d h enough tag whole = record {
    kept =
        open-durably_write_chunk sha256 d n.content (chunk_file_name p.name 0 p.parts) reader
          (fair_chunk_len 0 p.size p.parts) n.fsync_mode enough;
    tagged = tag;
    spread = refl;
    left =
        drop_add (fair_chunk_len 0 p.size p.parts) (span 1 (length addrs) p.size p.parts) reader
        ∙ ap (λ l. drop l reader) whole;
    backed = refl;
    answered = ap (split_reply p) (acks_lem links addrs h.acknowledging);
    well = refl;
  }

-- The file as the start node names it.
abbrev pub pushed : Node → Text → ℕ → Pushed
pushed n name size = record {
  name = name;
  size = size;
  parts = network_size n % 2 ^ 32;
  start_port = unwrap_or (parse_uint max_u16 (port_str n.port)) 0;
}

push_run :
    (sha256 : List ℕ → List ℕ) (links : Links) (n : Node) (reader : List ℕ) (size k : ℕ)
    (name : Text) (addrs : List Text)
    → size ≤ n.file_size
    → network_size n % 2 ^ 32 ≡ suc (suc k)
    → target_addrs n.topology_map (host_of n.port) (port_str n.port) (suc k) ≡ some addrs
    → handle_file_push sha256 links n reader size name
      ≡ fan_out sha256 links
          (accept_push sha256 n (pushed n name size))
          (pushed n name size)
          reader
          addrs
unfolding handle_file_push distribute
push_run sha256 links n reader size k name addrs fits several ht =
    let small : ltb n.file_size size ≡ false = ground arith in
    let more : (network_size n % 2 ^ 32 == 1) ≡ false = ground (arith, several) in
    let others : network_size n % 2 ^ 32 - 1 ≡ suc k = omega (arith, several) in
    rw (small, more, others, ht)

pieces_total :
    (n : Node) (name : Text) (size k : ℕ) (addrs : List Text)
    → network_size n % 2 ^ 32 ≡ suc (suc k)
    → target_addrs n.topology_map (host_of n.port) (port_str n.port) (suc k) ≡ some addrs
    → span 0 (suc (length addrs)) size (pushed n name size).parts ≡ size
pieces_total n name size k addrs several ht =
    rw (several, length-targets n.topology_map (host_of n.port) (port_str n.port) (suc k) addrs ht)
      (span_total size (suc (suc k)) (omega arith))

first_fits :
    (sha256 : List ℕ → List ℕ) (links : Links) (m : Node) (p : Pushed) (addrs : List Text)
    (reader : List ℕ)
    → span 0 (suc (length addrs)) p.size p.parts ≡ p.size
    → p.size ≤ length reader
    → first_len sha256 links m p addrs reader ≤ length reader
unfolding first_len span
first_fits sha256 links m p addrs reader whole enough = omega arith

accepted_tag :
    (sha256 : List ℕ → List ℕ) (n : Node) (p : Pushed)
    → get (accept_push sha256 n p).file_tags p.name
      ≡ some (record { start = p.start_port; size = p.size; parts = p.parts })
unfolding accept_push set_file_tag
accepted_tag sha256 n p = get-insert_self n.file_tags p.name _

-- At a start node that takes the size, in a network of two nodes or more whose topology leads to
-- every owner, and whose owners all take their connection, header and body and answer OK, a push
-- of a whole body stores the first chunk where it opens again, tags the file, sends every owner
-- its piece in order, reads exactly the size, starts the backup and answers with the final OK;
-- SHA-256 gives 32 bytes.
pub handle_file_push-Distributed :
    (sha256 : List ℕ → List ℕ)
    → IsDigest sha256
    → (links : Links) (n : Node) (reader : List ℕ) (size k : ℕ) (name : Text) (addrs : List Text)
    → size ≤ n.file_size
    → size ≤ length reader
    → network_size n % 2 ^ 32 ≡ suc (suc k)
    → target_addrs n.topology_map (host_of n.port) (port_str n.port) (suc k) ≡ some addrs
    → Healthy links addrs
    → Distributed sha256
        (pushed n name size)
        addrs
        reader
        (handle_file_push sha256 links n reader size name)
handle_file_push-Distributed sha256 d links n reader size k name addrs fits enough several ht h =
    let p = pushed n name size in
    let m = accept_push sha256 n p in
    let whole = pieces_total n name size k addrs several ht in
    let first = first_fits sha256 links m p addrs reader whole enough in
    rw
      (
        push_run sha256 links n reader size k name addrs fits several ht,
        fan_out_lem sha256 links m p addrs reader h first,
      )
      (after_stream-Distributed sha256 links m p addrs reader d h first (accepted_tag sha256 n p)
        whole)
