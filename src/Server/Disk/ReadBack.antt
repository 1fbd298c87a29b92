-- ===== src/Server/Disk/ReadBack.antt =====
-- The directory after `durably_write_chunk`, and `open_chunk_verified` of it (src/server.rs).
use ouroboros_fs.Base.{
  ℕ, ◌+◌, ◌-◌, ◌≤◌, ◌<◌, ◌≡◌, refl, sym, ap, ◌∙◌, ◌↔◌, true, false, List, [], ◌++◌, some, ltb, leb,
  length, take, drop, length-append, take-append, drop-append, take-append-drop, arith, Bool-cases,
  Option-cases, inl, inr, ok, err,
}
use ouroboros_fs.Text.{Text, codes, eq_text, eq_text_refl, eq_text_sound}
use ouroboros_fs.Map.{get, get-insert, get-insert_self, get-remove}
use ouroboros_fs.Node.{Directory, FsyncMode}
use ouroboros_fs.Auth.Hmac.{IsDigest}
use ouroboros_fs.Server.Disk.{
  unexpected_eof, not_found, partial_name, finish_write, durably_write_chunk, open_chunk_verified,
  verified, chunk_trailer_len,
}
use ouroboros_fs.Server.Disk.Loop.{copied, copy_blocks_lem}

-- The partial name is another name.
longer : (name s : Text) → (name ++ s ≡ name) → length s ≡ 0
longer name s e = omega (arith, length-append name s, ap length e)

partial_name_ne : (name : Text) → eq_text (partial_name name) name ≡ false
partial_name_ne name = elim (Bool-cases (eq_text (partial_name name) name)) [
  | inl h ↦
      let e : length (codes ".partial") ≡ 0 =
        longer name (codes ".partial") (eq_text_sound (partial_name name) name h) in
      absurd (omega arith)
  | inr h ↦ h
]

module _ (sha256 : List ℕ → List ℕ) where
  -- The write, with its loop run.
  write_run :
      (dir : Directory) (name : Text) (reader : List ℕ) (size : ℕ) (mode : FsyncMode)
      → durably_write_chunk sha256 dir name reader size mode
        ≡ finish_write sha256 dir name mode (copied reader size [])
  unfolding durably_write_chunk
  write_run dir name reader size mode =
      ap (λ c. finish_write sha256 dir name mode c)
        (copy_blocks_lem size reader size [] (omega arith))

  -- A chunk read from the bytes that a write leaves.
  verified_written :
      IsDigest sha256 → (body : List ℕ) → verified sha256 (body ++ sha256 body) ≡ ok body
  unfolding verified
  verified_written d body =
      let whole : length (body ++ sha256 body) ≡ length body + 32 =
        omega (arith, length-append body (sha256 body), d.digest_length body) in
      let long : ltb (length (body ++ sha256 body)) chunk_trailer_len ≡ false =
        ground (arith, whole) in
      let cut : length (body ++ sha256 body) - 32 ≡ length body = omega (arith, whole) in
      rw (
        long,
        cut,
        take-append body (sha256 body),
        drop-append body (sha256 body),
        eq_text_refl (sha256 body),
      )

  open_found :
      (dir : Directory) (name : Text) (bytes : List ℕ)
      → get dir name ≡ some bytes
      → open_chunk_verified sha256 dir name ≡ verified sha256 bytes
  unfolding open_chunk_verified
  open_found dir name bytes h = rw (open_chunk_verified, h)

  verified_sound :
      (bytes body : List ℕ) → verified sha256 bytes ≡ ok body → bytes ≡ body ++ sha256 body
  unfolding verified
  verified_sound bytes body h =
      let split = length bytes - chunk_trailer_len in
      let same = eq_text_sound (sha256 (take split bytes)) (drop split bytes) in
      let whole = take-append-drop split bytes in
      elim (Bool-cases (ltb (length bytes) chunk_trailer_len)) [
        | inl e ↦ ground (arith, h, e)
        | inr e ↦ ground (arith, h, e, same, whole)
      ]

  -- The two branches of what follows the copy.
  whole_write :
      (dir : Directory) (name : Text) (reader : List ℕ) (size : ℕ) (mode : FsyncMode)
      → size ≤ length reader
      → get (finish_write sha256 dir name mode (copied reader size [])).directory name
        ≡ some (take size reader ++ sha256 (take size reader))
  unfolding finish_write
  whole_write dir name reader size mode h =
      let e : leb size (length reader) ≡ true = ground arith in rw e (get-insert_self _ name _)

  whole_result :
      (dir : Directory) (name : Text) (reader : List ℕ) (size : ℕ) (mode : FsyncMode)
      → size ≤ length reader
      → ((finish_write sha256 dir name mode (copied reader size [])).result
          ≡ ok (length (take size reader)))
        × ((finish_write sha256 dir name mode (copied reader size [])).unread ≡ drop size reader)
  unfolding finish_write
  whole_result dir name reader size mode h =
      let e : leb size (length reader) ≡ true = ground arith in rw e (refl, refl)

  short_write :
      (dir : Directory) (name : Text) (reader : List ℕ) (size : ℕ) (mode : FsyncMode)
      → length reader < size
      → ((finish_write sha256 dir name mode (copied reader size [])).result ≡ err unexpected_eof)
        × (get (finish_write sha256 dir name mode (copied reader size [])).directory name
            ≡ get dir name)
  unfolding finish_write
  short_write dir name reader size mode h =
      let e : leb size (length reader) ≡ false = ground arith in
      rw e (refl, rw (get-insert, partial_name_ne name))

  -- A chunk written from at least the bytes asked for opens as the first of them, whatever the
  -- directory held and whatever the fsync mode; SHA-256 gives 32 bytes.
  pub open-durably_write_chunk :
      IsDigest sha256
      → (dir : Directory) (name : Text) (reader : List ℕ) (size : ℕ) (mode : FsyncMode)
      → size ≤ length reader
      → open_chunk_verified sha256
          (durably_write_chunk sha256 dir name reader size mode).directory
          name
        ≡ ok (take size reader)
  open-durably_write_chunk d dir name reader size mode h =
      rw (write_run dir name reader size mode) (
        open_found _ name _ (whole_write dir name reader size mode h)
        ∙ verified_written d (take size reader))

  -- A body that is long enough is copied, and what follows it is left to read.
  pub durably_write_chunk_whole :
      (dir : Directory) (name : Text) (reader : List ℕ) (size : ℕ) (mode : FsyncMode)
      → size ≤ length reader
      → ((durably_write_chunk sha256 dir name reader size mode).result
          ≡ ok (length (take size reader)))
        × ((durably_write_chunk sha256 dir name reader size mode).unread ≡ drop size reader)
  durably_write_chunk_whole dir name reader size mode h =
      rw (write_run dir name reader size mode) (whole_result dir name reader size mode h)

  -- A body that ends too soon gives UnexpectedEof, and the final name keeps what it held.
  pub durably_write_chunk_short :
      (dir : Directory) (name : Text) (reader : List ℕ) (size : ℕ) (mode : FsyncMode)
      → length reader < size
      → ((durably_write_chunk sha256 dir name reader size mode).result ≡ err unexpected_eof)
        × (get (durably_write_chunk sha256 dir name reader size mode).directory name ≡ get dir name)
  durably_write_chunk_short dir name reader size mode h =
      rw (write_run dir name reader size mode) (short_write dir name reader size mode h)

  -- On every branch of a write, a name that is neither the chunk's nor its partial name keeps its
  -- bytes.
  pub durably_write_chunk_keeps :
      (dir : Directory) (name : Text) (reader : List ℕ) (size : ℕ) (mode : FsyncMode) (other : Text)
      → eq_text name other ≡ false
      → eq_text (partial_name name) other ≡ false
      → get (durably_write_chunk sha256 dir name reader size mode).directory other ≡ get dir other
  unfolding finish_write
  durably_write_chunk_keeps dir name reader size mode other h hp =
      rw (write_run dir name reader size mode) (elim (Bool-cases (leb size (length reader))) [
        | inl e ↦ rw (e, get-insert, h, get-remove, hp)
        | inr e ↦ rw (e, get-insert, hp)
      ])

  open_sound :
      (dir : Directory) (name : Text) (body : List ℕ)
      → open_chunk_verified sha256 dir name ≡ ok body
      → get dir name ≡ some (body ++ sha256 body)
  unfolding open_chunk_verified
  open_sound dir name body h = elim (Option-cases (get dir name)) [
    | inl e ↦
        let missing : open_chunk_verified sha256 dir name ≡ err not_found =
          rw (open_chunk_verified, e) in
        cc
    | inr (bytes, e) ↦
        e ∙ ap some (verified_sound bytes body (sym (open_found dir name bytes e) ∙ h))
  ]

  -- A chunk opens with a body exactly when its file is that body followed by the body's digest;
  -- SHA-256 gives 32 bytes.
  pub open_chunk_verified_iff :
      IsDigest sha256
      → (dir : Directory) (name : Text) (body : List ℕ)
      → (open_chunk_verified sha256 dir name ≡ ok body)
        ↔ (get dir name ≡ some (body ++ sha256 body))
  open_chunk_verified_iff d dir name body =
      (open_sound dir name body, λ h. open_found dir name _ h ∙ verified_written d body)
