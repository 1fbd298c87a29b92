-- ===== src/Server/Store/Unread.antt =====
-- What the handlers of src/server.rs that store a chunk leave of the byte stream.
use ouroboros_fs.Base.{
  ℕ, ◌≤◌, ◌≡◌, refl, ap, ◌∙◌, Bool, true, false, List, [], if◌then◌else◌, length, drop, length-drop,
  arith, Bool-cases, inl, inr, Result, ok, err, not, ltb,
}
use ouroboros_fs.Text.{Text}
use ouroboros_fs.Node.{Node, Directory, FsyncMode}
use ouroboros_fs.Server.Disk.{Copied, copy_blocks, IoError, durably_write_chunk, finish_write}
use ouroboros_fs.Server.Disk.Loop.{copy_blocks_lem}
use ouroboros_fs.Server.Store.{
  Stored, stored, handle_file_push_chunk, handle_file_backup_push, handle_file_content_push,
}

-- No more is left than there was.
abbrev pub Leaves : List ℕ → List ℕ → Type 0
Leaves reader unread = length unread ≤ length reader

pub drop_le : (n : ℕ) (xs : List ℕ) → length (drop n xs) ≤ length xs
drop_le n xs = omega (arith, length-drop n xs)

pub stored_unread :
    (n : Node) (unread : List ℕ) (reply : Text) (backed_up : List Text) (r : Result ℕ IoError)
    → (stored n unread reply backed_up r).unread ≡ unread
unfolding stored
stored_unread n unread reply backed_up (ok size) = refl
stored_unread n unread reply backed_up (err e) = refl

pub either-Leaves :
    (reader : List ℕ) (b : Bool) (x y : Stored)
    → Leaves reader x.unread
    → Leaves reader y.unread
    → Leaves reader (if b then x else y).unread
either-Leaves reader true x y hx hy = hx
either-Leaves reader false x y hx hy = hy

pub stored-Leaves :
    (reader : List ℕ) (n : Node) (unread : List ℕ) (reply : Text) (backed_up : List Text)
    (r : Result ℕ IoError)
    → Leaves reader unread
    → Leaves reader (stored n unread reply backed_up r).unread
stored-Leaves reader n unread reply backed_up r h = rw (stored_unread n unread reply backed_up r) h

module _ (sha256 : List ℕ → List ℕ) where
  finish_unread :
      (dir : Directory) (name : Text) (mode : FsyncMode) (c : Copied)
      → (finish_write sha256 dir name mode c).unread ≡ c.unread
  unfolding finish_write
  finish_unread dir name mode c = elim (Bool-cases c.complete) [ inl e ↦ rw e | inr e ↦ rw e ]

  pub write_unread :
      (dir : Directory) (name : Text) (reader : List ℕ) (size : ℕ) (mode : FsyncMode)
      → (durably_write_chunk sha256 dir name reader size mode).unread ≡ drop size reader
  unfolding durably_write_chunk
  write_unread dir name reader size mode =
      finish_unread dir name mode (copy_blocks size reader size [])
      ∙ ap (λ c. c.unread) (copy_blocks_lem size reader size [] (omega arith))

  pub write-Leaves :
      (dir : Directory) (name : Text) (reader : List ℕ) (size : ℕ) (mode : FsyncMode)
      → Leaves reader (durably_write_chunk sha256 dir name reader size mode).unread
  write-Leaves dir name reader size mode =
      omega (arith, ap length (write_unread dir name reader size mode), drop_le size reader)

  pub push_chunk-Leaves :
      (n : Node) (reader : List ℕ) (name : Text) (chunk_size file_size parts index start_port : ℕ)
      → Leaves reader
          (handle_file_push_chunk sha256 n reader name chunk_size file_size parts index
            start_port).unread
  unfolding handle_file_push_chunk
  push_chunk-Leaves n reader name chunk_size file_size parts index start_port =
      either-Leaves reader (not (ltb index parts)) _ _ (omega arith)
        (stored-Leaves reader _ _ _ _ _ (write-Leaves _ name reader chunk_size _))

  pub backup_push-Leaves :
      (n : Node) (reader : List ℕ) (name : Text) (size : ℕ)
      → Leaves reader (handle_file_backup_push sha256 n reader name size).unread
  unfolding handle_file_backup_push
  backup_push-Leaves n reader name size =
      stored-Leaves reader _ _ _ _ _ (write-Leaves _ name reader size _)

  pub content_push-Leaves :
      (n : Node) (reader : List ℕ) (name : Text) (size : ℕ)
      → Leaves reader (handle_file_content_push sha256 n reader name size).unread
  unfolding handle_file_content_push
  content_push-Leaves n reader name size =
      stored-Leaves reader _ _ _ _ _ (write-Leaves _ name reader size _)
