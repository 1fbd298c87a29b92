-- ===== src/Auth/Token.antt =====
-- `AuthToken` of src/auth.rs. The random nonce of `make_auth_line` is an argument, and so is the
-- digest. A panic of `hex_decode` is an outcome of its own.
pub mod Line
pub mod Bearer
use ouroboros_fs.Base.{
  ℕ, ◌*◌, ◌≡◌, refl, Bool, true, false, not, ◌&&◌, ◌||◌, List, [], ◌∷◌, ◌++◌, Option, none, some,
  ◌==◌, if◌then◌else◌, Result, ok, err,
}
use ouroboros_fs.Text.{Text, codes, byte_len, trim, trim_eol, strip_prefix, as_bytes}
use ouroboros_fs.Text.Pieces.{splitn, item}
use ouroboros_fs.Auth.Hex.{
  hex_encode, hex_decode, decode_pairs, Decoded, decoded, malformed, panics,
}
use ouroboros_fs.Auth.Hmac.{hmac_sha256, constant_time_eq, nonce_len, hmac_len}

pub record AuthToken : Type 0 where
  pub secret : Option (List ℕ)

abbrev pub disabled : AuthToken
disabled = record { secret = none }

abbrev pub from_bytes : List ℕ → AuthToken
from_bytes s = record { secret = some s }

pub data HexError : Type 0 where
  bad_length bad_hex panicked : HexError

loaded : Decoded → Result AuthToken HexError
loaded (decoded bs) = ok (from_bytes bs)
loaded malformed = err bad_hex
loaded panics = err panicked

-- 64 bytes of text, cut in 32 pairs.
unfoldable pub from_hex : Text → Result AuthToken HexError
unfolding loaded
from_hex s =
    let hex = trim s in if byte_len hex == 64 then loaded (decode_pairs hex) else err bad_length

unfoldable pub is_enabled : AuthToken → Bool
is_enabled t = elim t.secret [ none ↦ false | some s ↦ true ]

-- What a check of a line ends with.
pub data Verdict : Type 0 where
  accepts rejects aborts : Verdict

abbrev pub verdict : Bool → Verdict
verdict true = accepts
verdict false = rejects

module _ (sha256 : List ℕ → List ℕ) where
  -- The line that a secret and a nonce make.
  unfoldable pub auth_line : List ℕ → List ℕ → Text
  auth_line secret nonce =
      (codes "AUTH " ++ (hex_encode (hmac_sha256 sha256 secret nonce) ++ b' ' ∷ hex_encode nonce))
      ++ b'\n' ∷ []

  unfoldable pub make_auth_line : AuthToken → List ℕ → Option Text
  unfolding auth_line
  make_auth_line t nonce = elim t.secret [
    | none ↦ none
    | some secret ↦ some (auth_line secret nonce)
  ]

  -- The two `let Some(…) = hex_decode(…) else`, the first before the second.
  unfoldable pub check_mac : List ℕ → Decoded → Decoded → Verdict
  check_mac secret (decoded mac) (decoded nonce) =
      verdict (constant_time_eq mac (hmac_sha256 sha256 secret nonce))
  check_mac secret (decoded mac) malformed = rejects
  check_mac secret (decoded mac) panics = aborts
  check_mac secret malformed n = rejects
  check_mac secret panics n = aborts

  unfoldable pub check_fields : List ℕ → List Text → Verdict
  check_fields secret parts =
      let mac_hex = item parts 0 in
      let nonce_hex = item parts 1 in
      if not (byte_len mac_hex == hmac_len * 2) || not (byte_len nonce_hex == nonce_len * 2)
      then rejects
      else check_mac secret (hex_decode mac_hex) (hex_decode nonce_hex)

  unfoldable pub check_line : List ℕ → Option Text → Verdict
  check_line secret none = rejects
  check_line secret (some rest) = check_fields secret (splitn 2 b' ' rest)

  unfoldable pub verify_auth_line : AuthToken → Text → Verdict
  unfolding check_line
  verify_auth_line t line = elim t.secret [
    | none ↦ accepts
    | some secret ↦ check_line secret (strip_prefix (codes "AUTH ") (trim_eol line))
  ]

unfoldable pub bearer_value : AuthToken → Option Text
bearer_value t = elim t.secret [ none ↦ none | some s ↦ some (hex_encode s) ]

-- `strip_prefix("Bearer ").or_else(|| strip_prefix("bearer "))`
abbrev or_else : Option Text → Option Text → Option Text
or_else (some a) b = some a
or_else none b = b

presented : Text → Option Text
presented v = or_else (strip_prefix (codes "Bearer ") v) (strip_prefix (codes "bearer ") v)

check_bearer : List ℕ → Option Text → Bool
check_bearer secret none = false
check_bearer secret (some p) = constant_time_eq (as_bytes (trim p)) (as_bytes (hex_encode secret))

unfoldable pub verify_bearer : AuthToken → Option Text → Bool
unfolding presented check_bearer
verify_bearer t header = elim t.secret [
  | none ↦ true
  | some secret ↦ elim header [ none ↦ false | some v ↦ check_bearer secret (presented (trim v)) ]
]
