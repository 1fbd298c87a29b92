-- ===== src/Server/Chunk.antt =====
-- How a file is cut into chunks and how chunks are named: `fair_chunk_len` and `chunk_file_name` of
-- src/server.rs, and the parent name that `handle_file_push_chunk` recovers.
pub mod Lengths
pub mod Names
use ouroboros_fs.Base.{
  ℕ, zero, suc, ◌+◌, ◌-◌, ◌/◌, ◌%◌, ◌≡◌, refl, Bool, [], ◌∷◌, ◌++◌, Option, none, some, ltb,
  if◌then◌else◌, length, replicate,
}
use ouroboros_fs.Text.{Text, codes}
use ouroboros_fs.Text.Decimal.{decimal}
use ouroboros_fs.Text.Pieces.{rsplit_once_str}

-- The first `total_size % parts` chunks get one byte more. The division panics for `parts == 0`.
unfoldable pub fair_chunk_len : ℕ → ℕ → ℕ → ℕ
fair_chunk_len index total_size parts =
    let base = total_size / parts in
    let rem = total_size % parts in if ltb index rem then base + 1 else base

-- `{:03}`: zeros in front, up to three digits.
unfoldable pub three_digits : ℕ → Text
three_digits n = replicate (3 - length (decimal n)) b'0' ++ decimal n

-- `format!("{}.part-{:03}-of-{:03}", name, index + 1, parts)`
unfoldable pub chunk_file_name : Text → ℕ → ℕ → Text
chunk_file_name name index parts =
    name ++ (codes ".part-" ++ (three_digits (index + 1) ++ (codes "-of-" ++ three_digits parts)))

-- `name.rsplit_once(".part-").map(|(p, _)| p).unwrap_or(name)`
parent_or : Text → Option (Text × Text) → Text
parent_or name none = name
parent_or name (some (p, rest)) = p

unfoldable pub parent_name : Text → Text
unfolding parent_or
parent_name name = parent_or name (rsplit_once_str (codes ".part-") name)

chunk_tests :
    (chunk_file_name (codes "a.txt") 1 3 ≡ codes "a.txt.part-002-of-003")
    × (parent_name (codes "a.txt.part-002-of-003") ≡ codes "a.txt")
    × (parent_name (codes "a.txt") ≡ codes "a.txt")
    × (fair_chunk_len 0 10 3 ≡ 4)
    × (fair_chunk_len 2 10 3 ≡ 3)
unfolding chunk_file_name three_digits decimal parent_name rsplit_once_str fair_chunk_len
chunk_tests = (refl, refl, refl, refl, refl)
