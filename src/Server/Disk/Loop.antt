-- ===== src/Server/Disk/Loop.antt =====
-- The block loop of `durably_write_chunk` (src/server.rs) and what it computes without its fuel.
use Prim.Native.Nat.{min}
use ouroboros_fs.Base.{
  ℕ, zero, suc, ◌-◌, ◌≤◌, ◌≡◌, refl, sym, ap, ◌∙◌, true, false, List, [], ◌∷◌, ◌++◌, append_assoc,
  append-nil, ◌==◌, leb, length, take, drop, arith, length-take, length-drop,
}
use ouroboros_fs.Server.Disk.{Copied, copy_blocks, block_len}

-- The outcome without the loop.
abbrev pub copied : List ℕ → ℕ → List ℕ → Copied
copied reader n out = record {
  written = out ++ take n reader;
  unread = drop n reader;
  complete = leb n (length reader);
}

take_nil : (n : ℕ) → take {A = ℕ} n [] ≡ []
take_nil zero = refl
take_nil (suc n) = refl

drop_nil : (n : ℕ) → drop {A = ℕ} n [] ≡ []
drop_nil zero = refl
drop_nil (suc n) = refl

-- A block and the rest of what was asked for.
take_block :
    (w s : ℕ) (xs : List ℕ)
    → w ≤ s
    → take w xs ++ take (s - length (take w xs)) (drop w xs) ≡ take s xs
take_block zero s xs h = let e : s - 0 ≡ s = omega arith in rw e
take_block (suc w) s [] h = rw (take_nil (s - 0), take_nil s)
take_block (suc w) zero (x ∷ xs) h = absurd (omega arith)
take_block (suc w) (suc s) (x ∷ xs) h =
    let e : suc s - suc (length (take w xs)) ≡ s - length (take w xs) = omega arith in
    rw e (ap (λ r. x ∷ r) (take_block w s xs (omega arith)))

drop_block : (w s : ℕ) (xs : List ℕ) → w ≤ s → drop (s - length (take w xs)) (drop w xs) ≡ drop s xs
drop_block zero s xs h = let e : s - 0 ≡ s = omega arith in rw e
drop_block (suc w) s [] h = rw (drop_nil (s - 0), drop_nil s)
drop_block (suc w) zero (x ∷ xs) h = absurd (omega arith)
drop_block (suc w) (suc s) (x ∷ xs) h =
    let e : suc s - suc (length (take w xs)) ≡ s - length (take w xs) = omega arith in
    rw e (drop_block w s xs (omega arith))

leb_block :
    (w s : ℕ) (xs : List ℕ)
    → w ≤ s
    → leb (s - length (take w xs)) (length (drop w xs)) ≡ leb s (length xs)
leb_block w s xs h = ground (arith, length-take w xs, length-drop w xs)

copied_block :
    (w s : ℕ) (xs out : List ℕ)
    → w ≤ s
    → copied (drop w xs) (s - length (take w xs)) (out ++ take w xs) ≡ copied xs s out
copied_block w s xs out h = λ i. record {
  written = (append_assoc out (take w xs) _ ∙ ap (λ r. out ++ r) (take_block w s xs h)) i;
  unread = drop_block w s xs h i;
  complete = leb_block w s xs h i;
}

-- The cases of `copied` that the loop's tests decide.
nothing_asked :
    (reader out : List ℕ)
    → copied reader 0 out ≡ record { written = out; unread = reader; complete = true }
nothing_asked reader out =
    let e : leb 0 (length reader) ≡ true = ground arith in
    λ i. record { written = append-nil out i; unread = reader; complete = e i }

nothing_left :
    (r : ℕ) (out : List ℕ)
    → copied [] (suc r) out ≡ record { written = out; unread = []; complete = false }
nothing_left r out =
    let e : leb (suc r) 0 ≡ false = ground arith in
    λ i. record { written = append-nil out i; unread = []; complete = e i }

take_want : (r : ℕ) → take {A = ℕ} (min (suc r) block_len) [] ≡ []
take_want r = take_nil (min (suc r) block_len)

some_asked : (r : ℕ) → (suc r == 0) ≡ false
some_asked r = ground arith

some_read : (r x : ℕ) (xs : List ℕ) → (length (take (min (suc r) block_len) (x ∷ xs)) == 0) ≡ false
some_read r x xs = ground (arith, length-take (min (suc r) block_len) (x ∷ xs))

fuel_left :
    (r fuel x : ℕ) (xs : List ℕ)
    → suc r ≤ suc fuel
    → suc r - length (take (min (suc r) block_len) (x ∷ xs)) ≤ fuel
fuel_left r fuel x xs h = omega (arith, length-take (min (suc r) block_len) (x ∷ xs))

-- With fuel for each byte the loop ends by its own tests.
pub copy_blocks_lem :
    (fuel : ℕ) (reader : List ℕ) (remaining : ℕ) (out : List ℕ)
    → remaining ≤ fuel
    → copy_blocks fuel reader remaining out ≡ copied reader remaining out
unfolding copy_blocks
copy_blocks_lem zero reader zero out h = sym (nothing_asked reader out)
copy_blocks_lem zero reader (suc r) out h = absurd (omega arith)
copy_blocks_lem (suc fuel) reader zero out h = sym (nothing_asked reader out)
copy_blocks_lem (suc fuel) [] (suc r) out h =
    rw (some_asked r, take_want r) (sym (nothing_left r out))
copy_blocks_lem (suc fuel) (x ∷ xs) (suc r) out h =
    let want = min (suc r) block_len in
    let block = take want (x ∷ xs) in
    rw (some_asked r, some_read r x xs)
      (copy_blocks_lem fuel (drop want (x ∷ xs)) (suc r - length block) (out ++ block)
          (fuel_left r fuel x xs h)
        ∙ copied_block want (suc r) (x ∷ xs) out (omega arith))
