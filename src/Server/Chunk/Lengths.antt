-- ===== src/Server/Chunk/Lengths.antt =====
-- The sums and the order of the lengths that `fair_chunk_len` of src/server.rs gives.
use native.Mathlib.Nat.{mod-lt, div-add-mod}
use ouroboros_fs.Base.{
  ℕ, zero, suc, ◌+◌, ◌*◌, ◌/◌, ◌%◌, ◌<◌, ◌≤◌, ◌≡◌, ◌∙◌, ltb, if◌then◌else◌, arith,
}
use ouroboros_fs.Server.Chunk.{fair_chunk_len}

-- The bytes in front of chunk `k`.
abbrev pub chunk_offset : ℕ → ℕ → ℕ → ℕ
chunk_offset zero size parts = 0
chunk_offset (suc k) size parts = chunk_offset k size parts + fair_chunk_len k size parts

abbrev smaller : ℕ → ℕ → ℕ
smaller a b = if ltb a b then a else b

chunk_offset_closed :
    (k size parts : ℕ) → chunk_offset k size parts ≡ k * (size / parts) + smaller k (size % parts)
unfolding fair_chunk_len
chunk_offset_closed zero size parts = ground arith
chunk_offset_closed (suc k) size parts = grind (arith, chunk_offset_closed k size parts)

-- The lengths of all chunks of a file add up to its size, for one part or more.
pub chunk_offset_total : (size parts : ℕ) → 0 < parts → chunk_offset parts size parts ≡ size
chunk_offset_total size parts h =
    chunk_offset_closed parts size parts ∙ ground (arith, mod-lt size h, div-add-mod size parts)

-- No chunk is longer than one before it, and none is shorter than one before it by more than a
-- byte.
pub fair_chunk_len_even :
    (i j size parts : ℕ)
    → i ≤ j
    → (fair_chunk_len j size parts ≤ fair_chunk_len i size parts)
      × (fair_chunk_len i size parts ≤ fair_chunk_len j size parts + 1)
unfolding fair_chunk_len
fair_chunk_len_even i j size parts h = ground arith

-- The bytes of `k` chunks from chunk `i` on.
unfoldable pub span : ℕ → ℕ → ℕ → ℕ → ℕ
span i zero size parts = 0
span i (suc k) size parts = fair_chunk_len i size parts + span (i + 1) k size parts

span_offset :
    (i k size parts : ℕ)
    → chunk_offset i size parts + span i k size parts ≡ chunk_offset (i + k) size parts
unfolding span
span_offset i zero size parts = let e : i + 0 ≡ i = omega arith in rw e (omega arith)
span_offset i (suc k) size parts =
    let e : i + suc k ≡ suc i + k = omega arith in
    let f : i + 1 ≡ suc i = omega arith in
    rw (e, f) (omega (arith, span_offset (suc i) k size parts))

-- All the chunks together are the file.
pub span_total : (size parts : ℕ) → 0 < parts → span 0 parts size parts ≡ size
span_total size parts h =
    let e : 0 + parts ≡ parts = omega arith in
    let f : chunk_offset (0 + parts) size parts ≡ size = rw e (chunk_offset_total size parts h) in
    omega (arith, span_offset 0 parts size parts, f)
