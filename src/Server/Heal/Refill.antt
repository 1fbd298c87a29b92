-- ===== src/Server/Heal/Refill.antt =====
-- The chunks of a respawned node after the pushes of `anti_entropy_refill_successor` (src/server.rs),
-- by the handler that takes them.
use ouroboros_fs.Base.{
  ℕ, ◌≡◌, refl, ap, ◌∙◌, true, false, List, [], ◌∷◌, ◌++◌, some, length, take-length, arith,
  Bool-cases, inl, inr, All, Result, ok, err,
}
use ouroboros_fs.Text.{Text, codes, is_empty, eq_text, eq_text_sound}
use ouroboros_fs.Text.Pieces.{rsplit_once_str, rsplit_once_str-lem}
use ouroboros_fs.Map.{get, keys, contains, contains-keys}
use ouroboros_fs.Auth.Hmac.{IsDigest}
use ouroboros_fs.Node.{Node, Directory}
use ouroboros_fs.Node.Send.{Sent}
use ouroboros_fs.Protocol.Command.{Command, file_content_push}
use ouroboros_fs.Server.Disk.{IoError, open_chunk_verified, durably_write_chunk, partial_name}
use ouroboros_fs.Server.Disk.ReadBack.{
  open-durably_write_chunk, durably_write_chunk_keeps, open_chunk_verified_iff,
}
use ouroboros_fs.Server.Disk.Janitor.{is_partial, extension}
use ouroboros_fs.Server.Store.{handle_file_content_push, stored}
use ouroboros_fs.Server.Heal.{push_content, refill_from, anti_entropy_refill_successor}
use ouroboros_fs.Server.Heal.Shared.{receive}

-- A partial name is told by its extension.
is_partial-partial_name : (k : Text) → is_empty k ≡ false → is_partial (partial_name k) ≡ true
unfolding is_partial extension
is_partial-partial_name k h =
    rw (rsplit_once_str-lem b'.' [] k (codes "partial") (unfold rsplit_once_str in refl), h)

partial_apart :
    (k name : Text)
    → is_empty k ≡ false
    → is_partial name ≡ false
    → eq_text (partial_name k) name ≡ false
partial_apart k name hk hn = elim (Bool-cases (eq_text (partial_name k) name)) [
  | inl e ↦
      let same : is_partial (partial_name k) ≡ is_partial name =
        ap is_partial (eq_text_sound (partial_name k) name e) in
      cc (is_partial-partial_name k hk, same, hn)
  | inr e ↦ e
]

stored_node :
    (n : Node) (unread : List ℕ) (reply : Text) (backed_up : List Text) (r : Result ℕ IoError)
    → (stored n unread reply backed_up r).node ≡ n
unfolding stored
stored_node n unread reply backed_up (ok size) = refl
stored_node n unread reply backed_up (err e) = refl

module _ (sha256 : List ℕ → List ℕ) where
  -- The node after one connection.
  unfoldable pub receive_push : Node → List ℕ → Command → Node
  receive_push m body (file_content_push name size) =
      (handle_file_content_push sha256 m body name size).node
  receive_push m body c = receive m c

  unfoldable pub receive_sent : Node → List Sent → Node
  unfolding receive_push
  receive_sent m [] = m
  receive_sent m (x ∷ xs) = receive_sent (receive_push m x.payload x.command) xs

  pub receive_sent-append :
      (m : Node) (xs ys : List Sent)
      → receive_sent m (xs ++ ys) ≡ receive_sent (receive_sent m xs) ys
  unfolding receive_sent
  receive_sent-append m [] ys = refl
  receive_sent-append m (x ∷ xs) ys = receive_sent-append (receive_push m x.payload x.command) xs ys

  pub push_node :
      (m : Node) (body : List ℕ) (name : Text) (size : ℕ)
      → receive_push m body (file_content_push name size) ≡ record m {
        content = (durably_write_chunk sha256 m.content name body size m.fsync_mode).directory;
      }
  unfolding receive_push handle_file_content_push
  push_node m body name size = stored_node _ _ _ _ _

  -- A chunk's file holds a body and its digest.
  abbrev Holds : Node → Text → List ℕ → Type 0
  Holds m name body = get m.content name ≡ some (body ++ sha256 body)

  module _ (d : IsDigest sha256) (name : Text) (body : List ℕ) (hn : is_partial name ≡ false) where
    push_own :
        (m : Node) → Holds (receive_push m body (file_content_push name (length body))) name body
    push_own m = rw (push_node m body name (length body)) (
        (open_chunk_verified_iff sha256 d _ name body).0 (
          open-durably_write_chunk sha256 d m.content name body (length body) m.fsync_mode
            (omega arith)
          ∙ ap ok (take-length body)))

    push_other :
        (m : Node) (k : Text) (other : List ℕ)
        → is_empty k ≡ false
        → eq_text k name ≡ false
        → Holds m name body
        → Holds (receive_push m other (file_content_push k (length other))) name body
    push_other m k other hk ne h = rw (push_node m other k (length other)) (
        durably_write_chunk_keeps sha256 m.content k other (length other) m.fsync_mode name ne
          (partial_apart k name hk hn)
        ∙ h)

    module _ (n : Node) (addr : Text) (dir : Directory)
        (o : open_chunk_verified sha256 dir name ≡ ok body) where
      abbrev offered : Text → List Sent
      offered k = push_content sha256 n addr k (open_chunk_verified sha256 dir k)

      one_own :
          (m : Node) (k : Text)
          → eq_text k name ≡ true
          → Holds (receive_sent m (offered k)) name body
      unfolding receive_sent push_content
      one_own m k e = let same = eq_text_sound k name e in rw (same, o) (push_own m)

      one_other :
          (m : Node) (k : Text) (r : Result (List ℕ) IoError)
          → is_empty k ≡ false
          → eq_text k name ≡ false
          → Holds m name body
          → Holds (receive_sent m (push_content sha256 n addr k r)) name body
      unfolding receive_sent push_content
      one_other m k (ok other) hk ne h = push_other m k other hk ne h
      one_other m k (err e) hk ne h = h

      one_keeps :
          (m : Node) (k : Text)
          → is_empty k ≡ false
          → Holds m name body
          → Holds (receive_sent m (offered k)) name body
      one_keeps m k hk h = elim (Bool-cases (eq_text k name)) [
        | inl e ↦ one_own m k e
        | inr e ↦ one_other m k (open_chunk_verified sha256 dir k) hk e h
      ]

      refill_keeps :
          (files : Directory) (m : Node)
          → All (λ k. is_empty k ≡ false) (keys files)
          → Holds m name body
          → Holds (receive_sent m (refill_from sha256 n addr dir files)) name body
      unfolding refill_from receive_sent
      refill_keeps [] m hk h = h
      refill_keeps ((k, bytes) ∷ files) m hk h = elim (Bool-cases (is_partial k)) [
        | inl e ↦ rw e (refill_keeps files m hk.1 h)
        | inr e ↦
            rw (e, receive_sent-append m (offered k))
              (refill_keeps files (receive_sent m (offered k)) hk.1 (one_keeps m k hk.0 h))
      ]

      refill_gives :
          (files : Directory) (m : Node)
          → All (λ k. is_empty k ≡ false) (keys files)
          → contains name (keys files) ≡ true
          → Holds (receive_sent m (refill_from sha256 n addr dir files)) name body
      unfolding refill_from receive_sent
      refill_gives [] m hk h = cc
      refill_gives ((k, bytes) ∷ files) m hk h = elim (Bool-cases (eq_text k name)) [
        | inl e ↦
            let plain : is_partial k ≡ false = rw (eq_text_sound k name e) hn in
            rw (plain, receive_sent-append m (offered k))
              (refill_keeps files (receive_sent m (offered k)) hk.1 (one_own m k e))
        | inr e ↦ elim (Bool-cases (is_partial k)) [
          | inl p ↦ rw p (refill_gives files m hk.1 (ground (arith, h, e)))
          | inr p ↦
              rw (p, receive_sent-append m (offered k))
                (refill_gives files (receive_sent m (offered k)) hk.1 (ground (arith, h, e)))
        ]
      ]

  listed :
      (dir : Directory) (name : Text) (body : List ℕ)
      → get dir name ≡ some body
      → contains name (keys dir) ≡ true
  listed dir name body h = rw (contains-keys dir name, h)

  -- A node that takes all that a refill sends then opens each chunk of the backup with the same body.
  pub open-refill :
      IsDigest sha256
      → (n m : Node) (addr name : Text) (body : List ℕ)
      → All (λ k. is_empty k ≡ false) (keys n.backup)
      → is_partial name ≡ false
      → open_chunk_verified sha256 n.backup name ≡ ok body
      → open_chunk_verified sha256
          (receive_sent m (anti_entropy_refill_successor sha256 n addr)).content
          name
        ≡ ok body
  unfolding anti_entropy_refill_successor
  open-refill d n m addr name body hk hn o = (open_chunk_verified_iff sha256 d _ name body).1 (
      refill_gives d name body hn n addr n.backup o n.backup m hk
        (listed n.backup name _ ((open_chunk_verified_iff sha256 d n.backup name body).0 o)))
