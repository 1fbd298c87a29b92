-- ===== src/Examples/Disk.antt =====
-- Examples of chunks on the disk of a node, and of their names and lengths.
use ouroboros_fs.Base.{
  ℕ, ◌+◌, ◌≤◌, ◌≡◌, ◌↔◌, refl, List, [], ◌∷◌, ◌++◌, some, ◌==◌, take, replicate, arith, ok, err,
  unwrap_or,
}
use ouroboros_fs.Text.{Text, codes, is_eol}
use ouroboros_fs.Map.{get}
use ouroboros_fs.Node.{get_next, no_sync, full_sync, Directory}
use ouroboros_fs.Protocol.Filename.{IsFilename, is_name_byte, validate_filename}
use ouroboros_fs.Server.Chunk.{chunk_file_name, fair_chunk_len}
use ouroboros_fs.Server.Chunk.Lengths.{chunk_offset, chunk_offset_total, fair_chunk_len_even}
use ouroboros_fs.Server.Chunk.Names.{chunk_file_name-injective, chunk_file_name_too_long}
use ouroboros_fs.Server.Disk.{durably_write_chunk, open_chunk_verified, unexpected_eof}
use ouroboros_fs.Server.Disk.ReadBack.{
  open-durably_write_chunk, durably_write_chunk_short, durably_write_chunk_keeps,
  open_chunk_verified_iff,
}
use ouroboros_fs.Server.Store.{received, handle_file_push_chunk, handle_file_get_chunk}
use ouroboros_fs.Server.Store.Answers.{IsPlain, get_chunk-push_chunk}
use ouroboros_fs.Examples.{free, holds, digest, digest-IsDigest, node_a}

abbrev chunk : Text
chunk = codes "a.txt.part-001-of-002"

abbrev reader : List ℕ
reader = 1 ∷ 2 ∷ 3 ∷ []

abbrev before : Directory
before = (codes "b", 9 ∷ []) ∷ []

next-IsPlain : IsPlain (unwrap_or (get_next node_a) node_a.port)
unfolding get_next
next-IsPlain = record {
  no_space = free (λ c. c == b' ') (codes "127.0.0.1:7001") refl;
  no_eol = free is_eol (codes "127.0.0.1:7001") refl;
}

get_chunk-push_chunk_example :
    received (
      handle_file_get_chunk digest
        (handle_file_push_chunk digest node_a reader chunk 2 3 2 0 7000).node
        chunk)
    ≡ some (take 2 reader)
get_chunk-push_chunk_example =
    get_chunk-push_chunk digest digest-IsDigest node_a reader chunk 2 3 2 0 7000 (omega arith)
      (omega arith) (omega arith) next-IsPlain (free is_eol chunk refl)

open-durably_write_chunk_example :
    open_chunk_verified digest
      (durably_write_chunk digest before chunk reader 2 full_sync).directory
      chunk
    ≡ ok (take 2 reader)
open-durably_write_chunk_example =
    open-durably_write_chunk digest digest-IsDigest before chunk reader 2 full_sync (omega arith)

durably_write_chunk_short_example :
    ((durably_write_chunk digest before chunk reader 4 no_sync).result ≡ err unexpected_eof)
    × (get (durably_write_chunk digest before chunk reader 4 no_sync).directory chunk
        ≡ get before chunk)
durably_write_chunk_short_example =
    durably_write_chunk_short digest before chunk reader 4 no_sync (omega arith)

durably_write_chunk_keeps_example :
    get (durably_write_chunk digest before chunk reader 2 no_sync).directory (codes "b")
    ≡ get before (codes "b")
durably_write_chunk_keeps_example =
    durably_write_chunk_keeps digest before chunk reader 2 no_sync (codes "b") refl refl

open_chunk_verified_iff_example :
    (open_chunk_verified digest before (codes "b") ≡ ok reader)
    ↔ (get before (codes "b") ≡ some (reader ++ digest reader))
open_chunk_verified_iff_example =
    open_chunk_verified_iff digest digest-IsDigest before (codes "b") reader

name-IsFilename : IsFilename (codes "a.txt")
unfolding is_name_byte
name-IsFilename = record {
  name_chars = holds is_name_byte (codes "a.txt") refl;
  not_dots = refl;
  fits = omega arith;
}

abbrev long_name : Text
long_name = replicate 240 b'a'

long_name-IsFilename : IsFilename long_name
unfolding is_name_byte
long_name-IsFilename = record {
  name_chars = holds is_name_byte long_name refl;
  not_dots = refl;
  fits = omega arith;
}

chunk_offset_total_example : chunk_offset 3 10 3 ≡ 10
chunk_offset_total_example = chunk_offset_total 10 3 (omega arith)

fair_chunk_len_even_example :
    (fair_chunk_len 2 10 3 ≤ fair_chunk_len 0 10 3)
    × (fair_chunk_len 0 10 3 ≤ fair_chunk_len 2 10 3 + 1)
fair_chunk_len_even_example = fair_chunk_len_even 0 2 10 3 (omega arith)

abbrev index : ℕ
index = 1

abbrev parts : ℕ
parts = 3

chunk_file_name-injective_example : (codes "a" ≡ codes "a") × (index ≡ index) × (parts ≡ parts)
chunk_file_name-injective_example =
    chunk_file_name-injective (codes "a") (codes "a") index index parts parts (omega arith)
      (omega arith) (omega arith) (omega arith) refl

chunk_file_name_too_long_example :
    validate_filename (chunk_file_name long_name 0 2) ≡ err (codes "filename too long")
chunk_file_name_too_long_example =
    chunk_file_name_too_long long_name 0 2 long_name-IsFilename (omega arith)
