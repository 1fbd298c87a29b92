-- ===== src/Auth/Hex.antt =====
-- `hex_encode` and `hex_decode` of src/auth.rs. `hex_decode` cuts a text at byte positions; a cut
-- inside a character is a panic, and a pair is read by `u8::from_str_radix`, which takes a `+`.
pub mod RoundTrip
use ouroboros_fs.Base.{
  ℕ, ◌+◌, ◌-◌, ◌*◌, ◌/◌, ◌%◌, ◌≡◌, refl, Bool, ◌&&◌, List, [], ◌∷◌, ◌++◌, Option, none, some, ltb,
  leb, ◌==◌, if◌then◌else◌, length,
}
use ouroboros_fs.Text.{Text, codes, utf8, byte_len}

-- `{:02x}`, one digit of it.
hex_char : ℕ → ℕ
hex_char d = if ltb d 10 then b'0' + d else b'a' + (d - 10)

unfoldable pub hex_encode : List ℕ → Text
unfolding hex_char
hex_encode [] = []
hex_encode (b ∷ bs) = hex_char (b / 16) ∷ hex_char (b % 16) ∷ hex_encode bs

-- `char::to_digit(16)`.
hex_digit : ℕ → Option ℕ
hex_digit c =
    if leb b'0' c && leb c b'9'
    then some (c - b'0')
    else if leb b'a' c && leb c b'f'
    then some (c - b'a' + 10)
    else if leb b'A' c && leb c b'F'
    then some (c - b'A' + 10)
    else none

abbrev two_digits : Option ℕ → Option ℕ → Option ℕ
two_digits (some h) (some l) = some (h * 16 + l)
two_digits _ _ = none

-- `u8::from_str_radix(pair, 16).ok()` of two characters.
unfoldable pub hex_pair : ℕ → ℕ → Option ℕ
unfolding hex_digit
hex_pair c d = if c == b'+' then hex_digit d else two_digits (hex_digit c) (hex_digit d)

pub data Decoded : Type 0 where
  decoded : List ℕ → Decoded
  malformed : Decoded
  panics : Decoded

abbrev pair_then : Option ℕ → Decoded → Decoded
pair_then none rest = malformed
pair_then (some b) (decoded bs) = decoded (b ∷ bs)
pair_then (some b) malformed = malformed
pair_then (some b) panics = panics

-- The loop over `s[i..i + 2]`. One character of two bytes is no pair of digits; a wider one, or one
-- that begins at the second byte, is cut.
unfoldable pub decode_pairs : Text → Decoded
decode_pairs [] = decoded []
decode_pairs (c ∷ []) = if ltb c 0x80 then panics else if ltb c 0x800 then malformed else panics
decode_pairs (c ∷ d ∷ s) =
    let rest = decode_pairs s in
    if ltb c 0x80
    then (if ltb d 0x80 then pair_then (hex_pair c d) rest else panics)
    else if ltb c 0x800
    then malformed
    else panics

unfoldable pub hex_decode : Text → Decoded
unfolding decode_pairs
hex_decode s = if byte_len s % 2 == 0 then decode_pairs s else malformed

hex_tests :
    (hex_encode (0xb0 ∷ 0x0f ∷ []) ≡ codes "b00f")
    × (hex_decode (codes "B00f") ≡ decoded (0xb0 ∷ 0x0f ∷ []))
    × (hex_decode (codes "+f") ≡ decoded (0x0f ∷ []))
    × (hex_decode (codes "abc") ≡ malformed)
    × (hex_decode (codes "zz") ≡ malformed)
    × (hex_decode (b'a' ∷ 0xe9 ∷ b'a' ∷ []) ≡ panics)
unfolding hex_encode hex_decode hex_pair
hex_tests = (refl, refl, refl, refl, refl, refl)
