-- ===== src/Auth/Token/Bearer.antt =====
-- `from_hex`, `bearer_value` and `verify_bearer` of src/auth.rs.
use mathlib.Core.Option.{some-injective}
use mathlib.Core.Path.{subst}
use ouroboros_fs.Base.{
  ℕ, ◌≡◌, refl, true, false, List, [], ◌∷◌, ◌++◌, none, some, length, All-mono, arith, ok,
}
use ouroboros_fs.Text.{Text, codes, byte_len, trim-Free, trim-append, is_empty, is_whitespace, Free}
use ouroboros_fs.Auth.Hex.{hex_encode}
use ouroboros_fs.Auth.Hex.RoundTrip.{
  AreBytes, hex_encode-Ascii, byte_len-hex_encode, as_bytes-Ascii, decode_pairs-hex_encode,
}
use ouroboros_fs.Auth.Hmac.{constant_time_eq_refl}
use ouroboros_fs.Auth.Token.{from_bytes, from_hex, bearer_value, verify_bearer, presented}

-- A configured secret has 32 bytes.
pub record IsSecret (s : List ℕ) : Type 0 where
  pub secret_bytes : AreBytes s
  pub secret_length : length s ≡ 32

hex-plain : (s : List ℕ) → AreBytes s → Free is_whitespace (hex_encode s)
hex-plain s h = All-mono (hex_encode s) (λ c e. ground arith) (hex_encode-Ascii s h)

hex-present : (s : List ℕ) → length s ≡ 32 → is_empty (hex_encode s) ≡ false
unfolding hex_encode
hex-present [] l = absurd (omega arith)
hex-present (b ∷ s) l = refl

read_back : (s : List ℕ) → IsSecret s → from_hex (hex_encode s) ≡ ok (from_bytes s)
read_back s h =
    let l : byte_len (hex_encode s) ≡ 64 =
      omega (arith, byte_len-hex_encode s h.secret_bytes, h.secret_length) in
    unfold from_hex in
    rw (
      trim-Free (hex_encode s) (hex-plain s h.secret_bytes),
      l,
      decode_pairs-hex_encode s h.secret_bytes,
    )

-- The value that a node hands on for a secret of 32 bytes is loaded as the same token.
pub from_hex-bearer_value :
    (s : List ℕ) (v : Text)
    → IsSecret s
    → bearer_value (from_bytes s) ≡ some v
    → from_hex v ≡ ok (from_bytes s)
unfolding bearer_value
from_hex-bearer_value s v h e =
    subst (λ x. from_hex x ≡ ok (from_bytes s)) (some-injective _ _ e) (read_back s h)

own_value :
    (c : ℕ) (scheme s : List ℕ)
    → IsSecret s
    → is_whitespace c ≡ false
    → presented (c ∷ (scheme ++ hex_encode s)) ≡ some (hex_encode s)
    → verify_bearer (from_bytes s) (some (c ∷ (scheme ++ hex_encode s))) ≡ true
unfolding verify_bearer
own_value c scheme s h hc e =
    rw
      (
        trim-append c scheme (hex_encode s) hc (hex-plain s h.secret_bytes)
            (hex-present s h.secret_length),
        e,
        trim-Free (hex_encode s) (hex-plain s h.secret_bytes),
        as_bytes-Ascii (hex_encode s) (hex_encode-Ascii s h.secret_bytes),
      )
      (constant_time_eq_refl (hex_encode s)
        (All-mono (hex_encode s) (λ c e. omega arith) (hex_encode-Ascii s h.secret_bytes)))

-- The bearer check accepts the hexadecimal text of its own 32 bytes behind either spelling of the
-- scheme, and refuses a request without the header.
pub verify_bearer_own :
    (s : List ℕ)
    → IsSecret s
    → (verify_bearer (from_bytes s) (some (codes "Bearer " ++ hex_encode s)) ≡ true)
      × (verify_bearer (from_bytes s) (some (codes "bearer " ++ hex_encode s)) ≡ true)
      × (verify_bearer (from_bytes s) none ≡ false)
unfolding presented
verify_bearer_own s h = (
  own_value b'B' (codes "earer ") s h refl refl,
  own_value b'b' (codes "earer ") s h refl refl,
  (unfold verify_bearer in refl),
)
