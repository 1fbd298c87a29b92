-- ===== src/Examples/Secrets.antt =====
-- Examples of the shared secret: the AUTH line, the bearer value and their hexadecimal text.
use ouroboros_fs.Base.{ℕ, ◌≡◌, refl, List, [], ◌∷◌, ◌++◌, some, ◌==◌, arith, replicate}
use ouroboros_fs.Text.{Text, codes, strip_prefix, trim_eol, is_eol}
use ouroboros_fs.Auth.Hex.{hex_encode}
use ouroboros_fs.Auth.Token.{
  from_bytes, bearer_value, auth_line, make_auth_line, verify_auth_line, accepts, aborts,
}
use ouroboros_fs.Auth.Token.Line.{
  Proves, verify-make_auth_line, verify_auth_line_sound, verify_auth_line-aborts,
}
use ouroboros_fs.Auth.Token.Bearer.{IsSecret}
use ouroboros_fs.Examples.{free, bytes, digest, digest-IsDigest}

abbrev secret : List ℕ
secret = replicate 32 7

abbrev nonce : List ℕ
nonce = replicate 16 1

secret-IsSecret : IsSecret secret
secret-IsSecret = record { secret_bytes = bytes secret refl; secret_length = refl }

made : make_auth_line digest (from_bytes secret) nonce ≡ some (auth_line digest secret nonce)
unfolding make_auth_line
made = refl

verify-make_auth_line_example :
    verify_auth_line digest (from_bytes secret) (auth_line digest secret nonce) ≡ accepts
verify-make_auth_line_example =
    verify-make_auth_line digest digest-IsDigest (from_bytes secret) nonce
      (auth_line digest secret nonce) (bytes nonce refl) refl made

own_line_accepted :
    verify_auth_line digest (from_bytes secret) (auth_line digest secret nonce) ≡ accepts
own_line_accepted =
    verify-make_auth_line digest digest-IsDigest (from_bytes secret) nonce
      (auth_line digest secret nonce) (bytes nonce refl) refl made

verify_auth_line_sound_example :
    (rest : Text) × (n : List ℕ) × (strip_prefix
        (codes "AUTH ")
        (trim_eol (auth_line digest secret nonce))
      ≡ some rest)
    × Proves digest digest-IsDigest secret rest n
verify_auth_line_sound_example =
    verify_auth_line_sound digest digest-IsDigest secret (auth_line digest secret nonce)
      own_line_accepted

abbrev wide_rest : Text
wide_rest = replicate 61 b'a'

abbrev nonce_hex : Text
nonce_hex = replicate 32 b'0'

verify_auth_line-aborts_example :
    verify_auth_line digest
      (from_bytes secret)
      ((codes "AUTH " ++ ((b'a' ∷ 233 ∷ wide_rest) ++ b' ' ∷ nonce_hex)) ++ b'\n' ∷ [])
    ≡ aborts
verify_auth_line-aborts_example =
    verify_auth_line-aborts digest digest-IsDigest secret b'a' 233 wide_rest nonce_hex (omega arith)
      (omega arith) refl refl (free (λ c. c == b' ') (b'a' ∷ 233 ∷ wide_rest) refl)
      (free is_eol (codes "AUTH " ++ ((b'a' ∷ 233 ∷ wide_rest) ++ b' ' ∷ nonce_hex)) refl)

own_value : bearer_value (from_bytes secret) ≡ some (hex_encode secret)
unfolding bearer_value
own_value = refl
