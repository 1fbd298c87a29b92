-- ===== src/Server/Client/Framing.antt =====
-- A handler of src/server.rs reads its own body off the stream and no byte more, so that the next line
-- is found where the client put it.
use ouroboros_fs.Base.{
  ℕ, ◌<◌, ◌≡◌, refl, sym, ap, ◌∙◌, true, List, [], ◌∷◌, ◌++◌, append-nil, leb, length, take-append,
  drop-append, length-append, arith, lt→ltb,
}
use ouroboros_fs.Text.{Text, codes}
use ouroboros_fs.Protocol.Command.{
  Command, node_next, node_status, node_ping, node_metrics, node_heal, node_heal_hop,
  node_heal_done, ring_forward, topology_walk, topology_hop, topology_done, topology_set,
  netmap_discover, netmap_hop, netmap_done, netmap_set, netmap_get, file_push, file_pull, file_list,
  file_tags_set, file_push_chunk, file_get_chunk, file_backup_push, file_get_backup_chunk,
  file_content_push,
}
use ouroboros_fs.Node.{Node, Directory, FsyncMode}
use ouroboros_fs.Node.Tags.{set_file_tag}
use ouroboros_fs.Server.Chunk.{parent_name}
use ouroboros_fs.Server.Disk.{Written, finish_write, durably_write_chunk}
use ouroboros_fs.Server.Disk.Loop.{copied, copy_blocks_lem}
use ouroboros_fs.Server.Store.{
  stored, in_content, in_backup, Answer, response, dropped, handle_file_push_chunk,
  handle_file_backup_push, handle_file_content_push, handle_file_get_chunk,
  handle_file_get_backup_chunk,
}
use ouroboros_fs.Server.Walk.{Walking, answered, waiting, handle_topology_walk}
use ouroboros_fs.Server.Client.{
  Round, Handled, handle_command, by_outcome, by_walking, by_step, by_answer, by_pull, by_stored,
}

-- The body that follows a command: none, or as many bytes as the command says. A push of a whole file
-- is left out, and so is a chunk whose index is refused, whose body stays on the stream.
abbrev pub Carries : Command → List ℕ → Type 0
Carries (file_push size name) body = ⊥
Carries (file_push_chunk name chunk_size file_size parts index start_port) body =
    (index < parts) × (length body ≡ chunk_size)
Carries (file_backup_push name size) body = length body ≡ size
Carries (file_content_push name size) body = length body ≡ size
Carries _ body = body ≡ []

abbrev pub leaving : Handled → List ℕ → Handled
leaving h rest = record h { unread = rest }

module _ (sha256 : List ℕ → List ℕ) where
  copied_whole :
      (body rest : List ℕ) (size : ℕ)
      → length body ≡ size
      → copied (body ++ rest) size [] ≡ record { written = body; unread = rest; complete = true }
  copied_whole body rest size e =
      let l : leb (length body) (length (body ++ rest)) ≡ true =
        ground (arith, length-append body rest) in
      rw⁻¹ e (λ i. record {
        written = take-append body rest i;
        unread = drop-append body rest i;
        complete = l i;
      })

  -- What a write of a whole body leaves, whatever follows the body.
  abbrev whole_write : Directory → Text → List ℕ → FsyncMode → List ℕ → Written
  whole_write dir name body mode rest =
      finish_write sha256 dir name mode (record { written = body; unread = rest; complete = true })

  write_framed :
      (dir : Directory) (name : Text) (body rest : List ℕ) (size : ℕ) (mode : FsyncMode)
      → length body ≡ size
      → durably_write_chunk sha256 dir name (body ++ rest) size mode
        ≡ whole_write dir name body mode rest
  unfolding durably_write_chunk
  write_framed dir name body rest size mode e =
      ap (λ c. finish_write sha256 dir name mode c)
        (copy_blocks_lem size (body ++ rest) size [] (omega arith) ∙ copied_whole body rest size e)

  write_own :
      (dir : Directory) (name : Text) (body : List ℕ) (size : ℕ) (mode : FsyncMode)
      → length body ≡ size
      → durably_write_chunk sha256 dir name body size mode ≡ whole_write dir name body mode []
  write_own dir name body size mode e =
      ap (λ b. durably_write_chunk sha256 dir name b size mode) (sym (append-nil body))
      ∙ write_framed dir name body [] size mode e

  -- A handler whose only read is such a write.
  framed_by :
      (f : Written → Handled) (dir : Directory) (name : Text) (body rest : List ℕ) (size : ℕ)
      (mode : FsyncMode)
      → length body ≡ size
      → f (whole_write dir name body mode rest)
        ≡ leaving (f (whole_write dir name body mode [])) rest
      → f (durably_write_chunk sha256 dir name (body ++ rest) size mode)
        ≡ leaving (f (durably_write_chunk sha256 dir name body size mode)) rest
  framed_by f dir name body rest size mode e h =
      ap f (write_framed dir name body rest size mode e)
      ∙ h
      ∙ sym (ap (λ w. leaving (f w) rest) (write_own dir name body size mode e))

  backup_framed :
      (r : Round) (n : Node) (body rest : List ℕ) (name : Text) (size : ℕ)
      → length body ≡ size
      → handle_command sha256 r n (body ++ rest) (file_backup_push name size)
        ≡ leaving (handle_command sha256 r n body (file_backup_push name size)) rest
  unfolding handle_command by_stored handle_file_backup_push stored finish_write
  backup_framed r n body rest name size e =
      framed_by
        (λ w.
          by_stored sha256 r (stored (in_backup n w.directory) w.unread (codes "OK\n") [] w.result))
        n.backup name body rest size n.fsync_mode e refl

  content_framed :
      (r : Round) (n : Node) (body rest : List ℕ) (name : Text) (size : ℕ)
      → length body ≡ size
      → handle_command sha256 r n (body ++ rest) (file_content_push name size)
        ≡ leaving (handle_command sha256 r n body (file_content_push name size)) rest
  unfolding handle_command by_stored handle_file_content_push stored finish_write
  content_framed r n body rest name size e =
      framed_by
        (λ w.
          by_stored sha256 r
            (stored (in_content n w.directory) w.unread (codes "OK\n") [] w.result))
        n.content name body rest size n.fsync_mode e refl

  chunk_framed :
      (r : Round) (n : Node) (body rest : List ℕ) (name : Text)
      (chunk_size file_size parts index start_port : ℕ)
      → index < parts
      → length body ≡ chunk_size
      → handle_command sha256 r n
          (body ++ rest)
          (file_push_chunk name chunk_size file_size parts index start_port)
        ≡ leaving
            (handle_command sha256 r n body
              (file_push_chunk name chunk_size file_size parts index start_port))
            rest
  unfolding handle_command by_stored handle_file_push_chunk stored finish_write
  chunk_framed r n body rest name chunk_size file_size parts index start_port hi e =
      let tagged = set_file_tag n (parent_name name) start_port file_size parts in
      rw (lt→ltb index parts hi) (
        framed_by
          (λ w.
            by_stored sha256 r
              (stored (in_content tagged w.directory) w.unread (codes "OK\n") (name ∷ []) w.result))
          tagged.content name body rest chunk_size tagged.fsync_mode e refl)

  walking_framed :
      (r : Round) (reader : List ℕ) (w : Walking)
      → by_walking r reader w ≡ leaving (by_walking r [] w) reader
  unfolding by_walking by_outcome
  walking_framed r reader (answered o) = refl
  walking_framed r reader (waiting token n sent) = refl

  answer_framed :
      (n : Node) (reader : List ℕ) (a : Answer)
      → by_answer n reader a ≡ leaving (by_answer n [] a) reader
  unfolding by_answer
  answer_framed n reader (response header body) = refl
  answer_framed n reader (dropped e) = refl

  -- A handler is given its body and leaves what follows it.
  pub handle_command-framed :
      (r : Round) (n : Node) (body rest : List ℕ) (c : Command)
      → Carries c body
      → handle_command sha256 r n (body ++ rest) c ≡ leaving (handle_command sha256 r n body c) rest
  unfolding handle_command by_outcome by_step by_pull
  handle_command-framed r n body rest (node_next a) q = rw q
  handle_command-framed r n body rest node_status q = rw q
  handle_command-framed r n body rest node_ping q = rw q
  handle_command-framed r n body rest node_metrics q = rw q
  handle_command-framed r n body rest node_heal q = rw q
  handle_command-framed r n body rest (node_heal_hop t a) q = rw q
  handle_command-framed r n body rest (node_heal_done t) q = rw q
  handle_command-framed r n body rest (ring_forward k m) q = rw q
  handle_command-framed r n body rest (topology_hop t a h) q = rw q
  handle_command-framed r n body rest (topology_done t h) q = rw q
  handle_command-framed r n body rest (topology_set h) q = rw q
  handle_command-framed r n body rest netmap_discover q = rw q
  handle_command-framed r n body rest (netmap_hop t a e) q = rw q
  handle_command-framed r n body rest (netmap_done t e) q = rw q
  handle_command-framed r n body rest (netmap_set e) q = rw q
  handle_command-framed r n body rest netmap_get q = rw q
  handle_command-framed r n body rest (file_pull f) q = rw q
  handle_command-framed r n body rest file_list q = rw q
  handle_command-framed r n body rest (file_tags_set e) q = rw q
  handle_command-framed r n body rest topology_walk q =
      rw q (walking_framed r rest (handle_topology_walk r.net n))
  handle_command-framed r n body rest (file_get_chunk f) q =
      rw q (answer_framed n rest (handle_file_get_chunk sha256 n f))
  handle_command-framed r n body rest (file_get_backup_chunk f) q =
      rw q (answer_framed n rest (handle_file_get_backup_chunk sha256 n f))
  handle_command-framed r n body rest (file_push size f) q = absurd q
  handle_command-framed r n body rest (file_push_chunk f a b p i s) q =
      chunk_framed r n body rest f a b p i s q.0 q.1
  handle_command-framed r n body rest (file_backup_push f size) q =
      backup_framed r n body rest f size q
  handle_command-framed r n body rest (file_content_push f size) q =
      content_framed r n body rest f size q
