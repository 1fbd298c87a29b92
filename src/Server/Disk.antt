-- ===== src/Server/Disk.antt =====
-- Chunk files: `durably_write_chunk`, `open_chunk_verified`, `sweep_orphan_partials` and
-- `enforce_storage_version` of src/server.rs. A file is its bytes; `sha256` is the digest of the
-- crate `sha2`, fed block by block, so it is applied to the blocks together.
pub mod Loop
pub mod ReadBack
pub mod Janitor
use Prim.Native.Nat.{min}
use ouroboros_fs.Base.{
  ℕ, zero, suc, ◌+◌, ◌-◌, ◌*◌, ◌≡◌, refl, Bool, true, false, not, ◌||◌, List, [], ◌∷◌, ◌++◌, Option,
  none, some, ◌==◌, ltb, if◌then◌else◌, length, take, drop, Result, ok, err,
}
use ouroboros_fs.Text.{Text, codes, trim, eq_text}
use ouroboros_fs.Text.Decimal.{parse_uint, max_u32, decimal}
use ouroboros_fs.Map.{Map, get, insert, remove, keys}
use ouroboros_fs.Node.{Directory, FsyncMode, syncs_file, syncs_dir}

abbrev pub chunk_trailer_len : ℕ
chunk_trailer_len = 32

abbrev pub block_len : ℕ
block_len = 65536

-- `std::io::ErrorKind`.
pub data IoError : Type 0 where
  unexpected_eof not_found invalid_data : IoError

-- What the copy of the body leaves: the bytes written, and the bytes not yet read.
pub record Copied : Type 0 where
  pub written : List ℕ
  pub unread : List ℕ
  pub complete : Bool

-- `while remaining > 0`: a block is at most 64 KiB, and a read of nothing ends in an error. A read
-- that brings fewer bytes than it may only makes more rounds. Each round takes a byte at least, so
-- `remaining` rounds are enough.
unfoldable pub copy_blocks : ℕ → List ℕ → ℕ → List ℕ → Copied
copy_blocks zero reader remaining out = record {
  written = out;
  unread = reader;
  complete = remaining == 0;
}
copy_blocks (suc fuel) reader remaining out =
    let want = min remaining block_len in
    let block = take want reader in
    let n = length block in
    let rest = copy_blocks fuel (drop want reader) (remaining - n) (out ++ block) in
    if remaining == 0
    then record { written = out; unread = reader; complete = true }
    else if n == 0
    then record { written = out; unread = reader; complete = false }
    else rest

-- The calls whose order makes a write durable.
pub data DiskCall : Type 0 where
  create : Text → DiskCall
  sync_file : Text → DiskCall
  rename : Text → Text → DiskCall
  sync_dir : DiskCall

abbrev pub partial_name : Text → Text
partial_name name = name ++ codes ".partial"

pub record Written : Type 0 where
  pub result : Result ℕ IoError
  pub directory : Directory
  pub unread : List ℕ
  pub calls : List DiskCall

module _ (sha256 : List ℕ → List ℕ) where
  -- What follows the copy. A short body leaves the `.partial` file; a whole one gets its trailer and
  -- takes the final name.
  unfoldable pub finish_write : Directory → Text → FsyncMode → Copied → Written
  finish_write dir name mode c =
      if c.complete
      then record {
        result = ok (length c.written);
        directory = insert (remove dir (partial_name name)) name (c.written ++ sha256 c.written);
        unread = c.unread;
        calls =
            create (partial_name name)
            ∷ ((if syncs_file mode then sync_file (partial_name name) ∷ [] else [])
                ++ rename (partial_name name) name
                  ∷ (if syncs_dir mode then sync_dir ∷ [] else []));
      }
      else record {
        result = err unexpected_eof;
        directory = insert dir (partial_name name) c.written;
        unread = c.unread;
        calls = create (partial_name name) ∷ [];
      }

  unfoldable pub durably_write_chunk : Directory → Text → List ℕ → ℕ → FsyncMode → Written
  durably_write_chunk dir name reader size mode =
      finish_write dir name mode (copy_blocks size reader size [])

  verified : List ℕ → Result (List ℕ) IoError
  verified bytes =
      if ltb (length bytes) chunk_trailer_len
      then err invalid_data
      else let split = length bytes - chunk_trailer_len in
        let body = take split bytes in
        if not (eq_text (sha256 body) (drop split bytes)) then err invalid_data else ok body

  unfoldable pub open_chunk_verified : Directory → Text → Result (List ℕ) IoError
  unfolding verified
  open_chunk_verified dir name = elim (get dir name) [
    | none ↦ err not_found
    | some bytes ↦ verified bytes
  ]
