-- ===== src/Auth/Hmac.antt =====
-- `hmac_sha256` and `constant_time_eq` of src/auth.rs. The digest is that of the crate `sha2`, so it
-- is a parameter: `sha256` of a whole message, which is what `new`, `update` and `finalize` compute.
use Prim.Native.Nat.{bit_or, bit_xor}
use ouroboros_fs.Base.{
  ℕ, zero, suc, ◌-◌, ◌<◌, ◌≡◌, refl, ◌↔◌, Bool, true, false, ◌&&◌, List, [], ◌∷◌, ◌++◌, map, ltb,
  ◌==◌, if◌then◌else◌, length, replicate, arith, ==_refl, Bool-cases, inl, inr,
}
use ouroboros_fs.Auth.Hex.RoundTrip.{AreBytes}

abbrev pub block_size : ℕ
block_size = 64

abbrev pub nonce_len : ℕ
nonce_len = 16

abbrev pub hmac_len : ℕ
hmac_len = 32

-- The documented output of SHA-256: 32 bytes.
pub record IsDigest (sha256 : List ℕ → List ℕ) : Type 0 where
  pub digest_length : (m : List ℕ) → length (sha256 m) ≡ hmac_len
  pub digest_bytes : (m : List ℕ) → AreBytes (sha256 m)

-- `k[..n].copy_from_slice(key)` into a block of zeros.
abbrev pad : List ℕ → List ℕ
pad key = key ++ replicate (block_size - length key) 0

module _ (sha256 : List ℕ → List ℕ) where
  unfoldable pub hmac_sha256 : List ℕ → List ℕ → List ℕ
  hmac_sha256 key msg =
      let k = if ltb block_size (length key) then pad (sha256 key) else pad key in
      let ipad = map (bit_xor 0x36) k in
      let opad = map (bit_xor 0x5c) k in
      let inner_digest = sha256 (ipad ++ msg) in sha256 (opad ++ inner_digest)

-- The loop `diff |= a[i] ^ b[i]` over two lists of one length.
fold_diff : List ℕ → List ℕ → ℕ → ℕ
fold_diff [] bs diff = diff
fold_diff (a ∷ as') [] diff = diff
fold_diff (a ∷ as') (b ∷ bs) diff = fold_diff as' bs (bit_or diff (bit_xor a b))

unfoldable pub constant_time_eq : List ℕ → List ℕ → Bool
unfolding fold_diff
constant_time_eq a b = if length a == length b then fold_diff a b 0 == 0 else false

-- A test of every value under a bound, and what one that passes says of a value.
table : (ℕ → Bool) → ℕ → Bool
table test zero = true
table test (suc top) = table test top && test top

table_entry : (test : ℕ → Bool) (x top : ℕ) → x < top → table test top ≡ true → test x ≡ true
unfolding table
table_entry test x zero below passed = absurd (omega arith)
table_entry test x (suc top) below passed = elim (Bool-cases (x == top)) [
  | inl last ↦ ground (arith, last, passed)
  | inr other ↦ table_entry test x top (ground arith) (ground (arith, passed))
]

abbrev agree : Bool → Bool → Bool
agree true b = b
agree false true = false
agree false false = true

abbrev xor_row : ℕ → ℕ → Bool
xor_row a b = ltb (bit_xor a b) 256 && agree (bit_xor a b == 0) (a == b)

abbrev or_row : ℕ → ℕ → Bool
or_row a b = ltb (bit_or a b) 256 && agree (bit_or a b == 0) (a == 0 && b == 0)

xor_table : table (λ a. table (λ b. xor_row a b) 256) 256 ≡ true
unfolding table
xor_table = refl

or_table : table (λ a. table (λ b. or_row a b) 256) 256 ≡ true
unfolding table
or_table = refl

xor_fact : (a b : ℕ) → a < 256 → b < 256 → xor_row a b ≡ true
xor_fact a b ha hb =
    table_entry (λ b. xor_row a b) b 256 hb
      (table_entry (λ a. table (λ b. xor_row a b) 256) a 256 ha xor_table)

or_fact : (a b : ℕ) → a < 256 → b < 256 → or_row a b ≡ true
or_fact a b ha hb =
    table_entry (λ b. or_row a b) b 256 hb
      (table_entry (λ a. table (λ b. or_row a b) 256) a 256 ha or_table)

xor_byte : (a b : ℕ) → a < 256 → b < 256 → (bit_xor a b < 256) × (bit_xor a b ≡ 0 → a ≡ b)
xor_byte a b ha hb = ground (arith, xor_fact a b ha hb)

xor_self : (a : ℕ) → a < 256 → bit_xor a a ≡ 0
xor_self a ha = ground (arith, xor_fact a a ha ha)

or_byte : (a b : ℕ) → a < 256 → b < 256 → (bit_or a b < 256) × (bit_or a b ≡ 0 → (a ≡ 0) × (b ≡ 0))
or_byte a b ha hb = ground (arith, or_fact a b ha hb)

fold_diff-zero :
    (a b : List ℕ) (d : ℕ)
    → AreBytes a
    → AreBytes b
    → d < 256
    → length a ≡ length b
    → fold_diff a b d ≡ 0
    → (d ≡ 0) × (a ≡ b)
unfolding fold_diff
fold_diff-zero [] [] d ha hb hd l h = (h, refl)
fold_diff-zero [] (y ∷ b) d ha hb hd l h = absurd (omega arith)
fold_diff-zero (x ∷ a) [] d ha hb hd l h = absurd (omega arith)
fold_diff-zero (x ∷ a) (y ∷ b) d ha hb hd l h =
    let (xlt, xeq) = xor_byte x y ha.0 hb.0 in
    let (olt, oeq) = or_byte d (bit_xor x y) hd xlt in
    let (z, e) = fold_diff-zero a b (bit_or d (bit_xor x y)) ha.1 hb.1 olt (omega arith) h in
    ((oeq z).0, cc (xeq (oeq z).1))

fold_diff_self : (a : List ℕ) → AreBytes a → fold_diff a a 0 ≡ 0
unfolding fold_diff
fold_diff_self [] h = refl
fold_diff_self (x ∷ a) h = rw (xor_self x h.0) (fold_diff_self a h.1)

constant_time_eq-parts :
    (a b : List ℕ) → constant_time_eq a b ≡ true → (length a ≡ length b) × (fold_diff a b 0 ≡ 0)
unfolding constant_time_eq
constant_time_eq-parts a b h = ground arith

pub constant_time_eq_refl : (a : List ℕ) → AreBytes a → constant_time_eq a a ≡ true
unfolding constant_time_eq
constant_time_eq_refl a h = rw (==_refl (length a), fold_diff_self a h)

-- On lists of bytes the comparison without early exit is equality.
pub constant_time_eq_iff :
    (a b : List ℕ) → AreBytes a → AreBytes b → (constant_time_eq a b ≡ true) ↔ (a ≡ b)
constant_time_eq_iff a b ha hb = (
  λ h.
      let (l, z) = constant_time_eq-parts a b h in (fold_diff-zero a b 0 ha hb (omega arith) l z).1,
  λ e. rw (← e) (constant_time_eq_refl a ha),
)
