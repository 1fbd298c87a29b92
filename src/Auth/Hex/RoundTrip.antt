-- ===== src/Auth/Hex/RoundTrip.antt =====
-- `hex_encode` and `hex_decode` of src/auth.rs: lemmas on one after the other.
use mathlib.Core.Path.{subst}
use ouroboros_fs.Base.{
  ℕ, ◌*◌, ◌/◌, ◌%◌, ◌<◌, ◌≤◌, ◌≡◌, refl, ap, ◌∙◌, Bool, true, false, List, [], ◌∷◌, Option, none,
  some, ltb, ◌==◌, if◌then◌else◌, length, All, arith, lt→ltb,
}
use ouroboros_fs.Text.{Text, byte_len, as_bytes}
use ouroboros_fs.Auth.Hex.{
  hex_encode, hex_decode, hex_pair, hex_char, decode_pairs, decoded, malformed, panics, Decoded,
  pair_then,
}

abbrev pub AreBytes : List ℕ → Type 0
AreBytes = All (λ b. b < 256)

hex_char-ascii : (d : ℕ) → d < 16 → (b'0' ≤ hex_char d) × (hex_char d ≤ b'f')
unfolding hex_char
hex_char-ascii d h = ground arith

hex_pair-lem : (b : ℕ) → b < 256 → hex_pair (hex_char (b / 16)) (hex_char (b % 16)) ≡ some b
unfolding hex_pair hex_char
hex_pair-lem b h = ground arith

abbrev Ascii : Text → Type 0
Ascii = All (λ c. (b'0' ≤ c) × (c ≤ b'f'))

pub hex_encode-Ascii : (bs : List ℕ) → AreBytes bs → Ascii (hex_encode bs)
unfolding hex_encode
hex_encode-Ascii [] h = tt
hex_encode-Ascii (b ∷ bs) h = (
  hex_char-ascii (b / 16) (omega (arith, h.0)),
  (hex_char-ascii (b % 16) (omega arith), hex_encode-Ascii bs h.1),
)

pub as_bytes-Ascii : (s : Text) → Ascii s → as_bytes s ≡ s
as_bytes-Ascii [] h = refl
as_bytes-Ascii (c ∷ s) h = ground (arith, as_bytes-Ascii s h.1)

pub length-hex_encode : (bs : List ℕ) → length (hex_encode bs) ≡ 2 * length bs
unfolding hex_encode
length-hex_encode [] = refl
length-hex_encode (b ∷ bs) = omega (arith, length-hex_encode bs)

pub byte_len-hex_encode : (bs : List ℕ) → AreBytes bs → byte_len (hex_encode bs) ≡ 2 * length bs
byte_len-hex_encode bs h =
    ap length (as_bytes-Ascii (hex_encode bs) (hex_encode-Ascii bs h)) ∙ length-hex_encode bs

pub decode_pairs-hex_encode :
    (bs : List ℕ) → AreBytes bs → decode_pairs (hex_encode bs) ≡ decoded bs
unfolding decode_pairs hex_encode
decode_pairs-hex_encode [] h = refl
decode_pairs-hex_encode (b ∷ bs) h =
    let (_, hi) = hex_char-ascii (b / 16) (omega (arith, h.0)) in
    let (_, lo) = hex_char-ascii (b % 16) (omega arith) in
    rw (
      lt→ltb (hex_char (b / 16)) 0x80 (omega arith),
      lt→ltb (hex_char (b % 16)) 0x80 (omega arith),
      hex_pair-lem b h.0,
      decode_pairs-hex_encode bs h.1,
    )

-- Every list of bytes is read back from its hexadecimal text.
pub hex_decode-hex_encode : (bs : List ℕ) → AreBytes bs → hex_decode (hex_encode bs) ≡ decoded bs
hex_decode-hex_encode bs h =
    let even : byte_len (hex_encode bs) % 2 ≡ 0 = omega (arith, byte_len-hex_encode bs h) in
    unfold hex_decode in rw even (decode_pairs-hex_encode bs h)

hex_pair-lt : (c d b : ℕ) → hex_pair c d ≡ some b → b < 256
unfolding hex_pair
hex_pair-lt c d b h = ground arith

-- What is decoded is bytes.
abbrev Holds : Decoded → Type 0
Holds (decoded bs) = AreBytes bs
Holds malformed = Unit
Holds panics = Unit

Holds-if : (b : Bool) (x y : Decoded) → Holds x → Holds y → Holds (if b then x else y)
Holds-if true x y hx hy = hx
Holds-if false x y hx hy = hy

pair_then-Holds :
    (o : Option ℕ) (rest : Decoded)
    → ((b : ℕ) → o ≡ some b → b < 256)
    → Holds rest
    → Holds (pair_then o rest)
pair_then-Holds none rest h k = tt
pair_then-Holds (some b) (decoded bs) h k = (h b refl, k)
pair_then-Holds (some b) malformed h k = tt
pair_then-Holds (some b) panics h k = tt

decode_pairs-Holds : (s : Text) → Holds (decode_pairs s)
unfolding decode_pairs
decode_pairs-Holds [] = tt
decode_pairs-Holds (c ∷ []) =
    Holds-if (ltb c 0x80) panics _ tt (Holds-if (ltb c 0x800) malformed panics tt tt)
decode_pairs-Holds (c ∷ d ∷ s) =
    Holds-if (ltb c 0x80) _ _
      (Holds-if (ltb d 0x80) _ panics
        (pair_then-Holds (hex_pair c d) (decode_pairs s) (hex_pair-lt c d) (decode_pairs-Holds s))
        tt)
      (Holds-if (ltb c 0x800) malformed panics tt tt)

pub hex_decode-AreBytes : (s : Text) (bs : List ℕ) → hex_decode s ≡ decoded bs → AreBytes bs
hex_decode-AreBytes s bs h = subst Holds h holds
  where
    holds : Holds (hex_decode s)
    holds =
        unfold hex_decode in Holds-if (byte_len s % 2 == 0) _ malformed (decode_pairs-Holds s) tt

decode_pairs_wide : (c w : ℕ) (m : Text) → c < 0x80 → 0x80 ≤ w → decode_pairs (c ∷ w ∷ m) ≡ panics
unfolding decode_pairs
decode_pairs_wide c w m hc hw =
    let narrow : ltb w 0x80 ≡ false = ground arith in rw (lt→ltb c 0x80 hc, narrow)

-- A character of several bytes at an odd position is cut in two.
pub hex_decode_wide :
    (c w : ℕ) (m : Text)
    → c < 0x80
    → 0x80 ≤ w
    → byte_len (c ∷ w ∷ m) ≡ 64
    → hex_decode (c ∷ w ∷ m) ≡ panics
hex_decode_wide c w m hc hw l =
    let even : byte_len (c ∷ w ∷ m) % 2 ≡ 0 = omega (arith, l) in
    unfold hex_decode in rw even (decode_pairs_wide c w m hc hw)
