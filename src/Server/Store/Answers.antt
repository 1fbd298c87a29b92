-- ===== src/Server/Store/Answers.antt =====
-- The handlers of src/server.rs that write chunks against those that serve them, up to what the
-- client reads.
use ouroboros_fs.Base.{
  ℕ, ◌≤◌, ◌<◌, ◌≡◌, refl, ap, ◌∙◌, true, false, List, [], ◌∷◌, ◌++◌, append_assoc, some, ltb,
  length, take, take-length, unwrap_or, All-mono, All-append, arith, Result, ok, err,
}
use ouroboros_fs.Text.{Text, codes, Free, Lacks, is_eol, trim_eol, trim_eol-line, strip_prefix}
use ouroboros_fs.Text.Pieces.{splitn, splitn-more, item, strip_prefix-append}
use ouroboros_fs.Text.Decimal.{decimal, decimal-AllDigits, parse_uint-decimal, max_u64}
use ouroboros_fs.Auth.Hmac.{IsDigest}
use ouroboros_fs.Node.{Node, get_next}
use ouroboros_fs.Node.Tags.{set_file_tag}
use ouroboros_fs.Server.Chunk.{parent_name}
use ouroboros_fs.Server.Disk.{open_chunk_verified, durably_write_chunk, IoError}
use ouroboros_fs.Server.Disk.ReadBack.{open-durably_write_chunk}
use ouroboros_fs.Server.Store.{
  answer, resp_header, received, read_response, read_exact, stored, handle_file_push_chunk,
  handle_file_backup_push, handle_file_get_chunk, handle_file_get_backup_chunk,
}

-- A field of the header line: no space and no line break.
pub record IsPlain (s : Text) : Type 0 where
  pub no_space : Lacks b' ' s
  pub no_eol : Free is_eol s

decimal-IsPlain : (n : ℕ) → IsPlain (decimal n)
decimal-IsPlain n = record {
  no_space = All-mono (decimal n) (λ c e. ground arith) (decimal-AllDigits n);
  no_eol = All-mono (decimal n) (λ c e. ground arith) (decimal-AllDigits n);
}

-- The line of a header, without its line break.
header_line : Text → ℕ → Text → Text
header_line next size name =
    codes "FILE RESP-CHUNK " ++ (next ++ b' ' ∷ (decimal size ++ b' ' ∷ name))

header_ends :
    (next : Text) (size : ℕ) (name : Text)
    → resp_header next size name ≡ header_line next size name ++ b'\n' ∷ []
unfolding resp_header header_line
header_ends next size name = rw (append_assoc next, append_assoc (decimal size))

prefix-Free : Free is_eol (codes "FILE RESP-CHUNK ")
prefix-Free = (
  refl,
  (
    refl,
    (
      refl,
      (
        refl,
        (
          refl,
          (
            refl,
            (refl, (refl, (refl, (refl, (refl, (refl, (refl, (refl, (refl, (refl, tt)))))))))),
          ),
        ),
      ),
    ),
  ),
)

line-Free :
    (next : Text) (size : ℕ) (name : Text)
    → IsPlain next
    → Free is_eol name
    → Free is_eol (header_line next size name)
unfolding header_line
line-Free next size name hn h =
    let tail =
      All-append (λ c. is_eol c ≡ false) (decimal size) _ (decimal-IsPlain size).no_eol (refl, h) in
    let rest = All-append (λ c. is_eol c ≡ false) next _ hn.no_eol (refl, tail) in
    All-append (λ c. is_eol c ≡ false) (codes "FILE RESP-CHUNK ") _ prefix-Free rest

-- The fields of a header line.
fields_read :
    (next name : Text) (size : ℕ)
    → IsPlain next
    → item (splitn 3 b' ' (next ++ b' ' ∷ (decimal size ++ b' ' ∷ name))) 1 ≡ decimal size
fields_read next name size hn = rw (
  splitn-more 1 b' ' next (decimal size ++ b' ' ∷ name) hn.no_space,
  splitn-more 0 b' ' (decimal size) name (decimal-IsPlain size).no_space,
)

header_stripped :
    (next name : Text) (size : ℕ)
    → IsPlain next
    → Free is_eol name
    → strip_prefix (codes "FILE RESP-CHUNK ") (trim_eol (resp_header next size name))
      ≡ some (next ++ b' ' ∷ (decimal size ++ b' ' ∷ name))
header_stripped next name size hn h =
    ap (λ l. strip_prefix (codes "FILE RESP-CHUNK ") l)
      (ap trim_eol (header_ends next size name)
        ∙ trim_eol-line (header_line next size name) (line-Free next size name hn h))
    ∙ (unfold header_line in
        strip_prefix-append (codes "FILE RESP-CHUNK ")
          (next ++ b' ' ∷ (decimal size ++ b' ' ∷ name)))

read_whole : (body : List ℕ) → read_exact (length body) body ≡ some body
unfolding read_exact
read_whole body =
    let e : ltb (length body) (length body) ≡ false = ground arith in
    let all : take (length body) body ≡ body = take-length body in rw (e, all)

-- A body that is answered is received as it is.
received-answer :
    (next name : Text) (body : List ℕ)
    → IsPlain next
    → Free is_eol name
    → length body ≤ max_u64
    → received (answer next name (ok body)) ≡ some body
unfolding received answer read_response
received-answer next name body hn h fits =
    rw
      (
        header_stripped next name (length body) hn h,
        fields_read next name (length body) hn,
        parse_uint-decimal max_u64 (length body) fits,
      )
      (read_whole body)

stored-node :
    (n : Node) (unread : List ℕ) (reply : Text) (names : List Text) (r : Result ℕ IoError)
    → (stored n unread reply names r).node ≡ n
unfolding stored
stored-node n unread reply names (ok size) = refl
stored-node n unread reply names (err e) = refl

module _ (sha256 : List ℕ → List ℕ) where
  served :
      (n : Node) (name : Text) (body : List ℕ)
      → IsPlain (unwrap_or (get_next n) n.port)
      → Free is_eol name
      → length body ≤ max_u64
      → open_chunk_verified sha256 n.content name ≡ ok body
      → received (handle_file_get_chunk sha256 n name) ≡ some body
  unfolding handle_file_get_chunk
  served n name body hn h fits e =
      rw e (received-answer (unwrap_or (get_next n) n.port) name body hn h fits)

  served_backup :
      (n : Node) (name : Text) (body : List ℕ)
      → IsPlain (unwrap_or (get_next n) n.port)
      → Free is_eol name
      → length body ≤ max_u64
      → open_chunk_verified sha256 n.backup name ≡ ok body
      → received (handle_file_get_backup_chunk sha256 n name) ≡ some body
  unfolding handle_file_get_backup_chunk
  served_backup n name body hn h fits e =
      rw e (received-answer (unwrap_or (get_next n) n.port) name body hn h fits)

  -- The node after a chunk came, by PUSH-CHUNK and by BACKUP-PUSH.
  after_push_chunk :
      (n : Node) (reader : List ℕ) (name : Text) (size file_size parts index start_port : ℕ)
      → index < parts
      → (handle_file_push_chunk sha256 n reader name size file_size parts index start_port).node
        ≡ record (set_file_tag n (parent_name name) start_port file_size parts) {
          content = (durably_write_chunk sha256 n.content name reader size n.fsync_mode).directory;
        }
  unfolding handle_file_push_chunk set_file_tag
  after_push_chunk n reader name size file_size parts index start_port h =
      let e : ltb index parts ≡ true = ground arith in rw e (stored-node _ _ _ _ _)

  after_backup_push :
      (n : Node) (reader : List ℕ) (name : Text) (size : ℕ)
      → (handle_file_backup_push sha256 n reader name size).node ≡ record n {
        backup = (durably_write_chunk sha256 n.backup name reader size n.fsync_mode).directory;
      }
  unfolding handle_file_backup_push
  after_backup_push n reader name size = stored-node _ _ _ _ _

  -- The bytes that FILE PUSH-CHUNK stored on a node are what a client reads from its FILE GET-
  -- CHUNK, for an index below the parts, a body that is whole and has a length of 64 bits, and a
  -- name and a next hop that fit on the header line.
  pub get_chunk-push_chunk :
      IsDigest sha256
      → (n : Node) (reader : List ℕ) (name : Text) (size file_size parts index start_port : ℕ)
      → index < parts
      → size ≤ length reader
      → length (take size reader) ≤ max_u64
      → IsPlain (unwrap_or (get_next n) n.port)
      → Free is_eol name
      → received (
          handle_file_get_chunk sha256
            (handle_file_push_chunk sha256 n reader name size file_size parts index start_port).node
            name)
        ≡ some (take size reader)
  get_chunk-push_chunk d n reader name size file_size parts index start_port hi hs fits hn h =
      ap (λ m. received (handle_file_get_chunk sha256 m name))
        (after_push_chunk n reader name size file_size parts index start_port hi)
      ∙ (unfold set_file_tag get_next in
          served _ name (take size reader) hn h fits
            (open-durably_write_chunk sha256 d n.content name reader size n.fsync_mode hs))

  -- The bytes that FILE BACKUP-PUSH stored on a node are what a client reads from its FILE GET-
  -- BACKUP-CHUNK, for a body that is whole and has a length of 64 bits, and a name and a next hop
  -- that fit on the header line.
  pub get_backup_chunk-backup_push :
      IsDigest sha256
      → (n : Node) (reader : List ℕ) (name : Text) (size : ℕ) → size ≤ length reader
      → length (take size reader) ≤ max_u64
      → IsPlain (unwrap_or (get_next n) n.port)
      → Free is_eol name
      → received (
          handle_file_get_backup_chunk sha256
            (handle_file_backup_push sha256 n reader name size).node
            name)
        ≡ some (take size reader)
  get_backup_chunk-backup_push d n reader name size hs fits hn h =
      ap (λ m. received (handle_file_get_backup_chunk sha256 m name))
        (after_backup_push n reader name size)
      ∙ served_backup
          (record n {
            backup = (durably_write_chunk sha256 n.backup name reader size n.fsync_mode).directory;
          })
          name (take size reader) (unfold get_next in hn) h fits
          (open-durably_write_chunk sha256 d n.backup name reader size n.fsync_mode hs)
