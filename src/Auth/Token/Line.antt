-- ===== src/Auth/Token/Line.antt =====
-- `verify_auth_line` of src/auth.rs against the lines that `make_auth_line` writes.
use mathlib.Core.Option.{some-injective}
use mathlib.Core.Path.{subst}
use ouroboros_fs.Base.{
  ℕ, ◌<◌, ◌≤◌, ◌≡◌, refl, ap, Bool, true, false, List, [], ◌∷◌, ◌++◌, Option, none, some, length,
  All-append, All-mono, arith,
}
use ouroboros_fs.Text.{
  Text, codes, byte_len, trim_eol, trim_eol-line, strip_prefix, is_eol, Free, Lacks,
}
use ouroboros_fs.Text.Pieces.{splitn, splitn-more, item}
use ouroboros_fs.Auth.Hex.{hex_encode, hex_decode, Decoded, decoded, malformed, panics}
use ouroboros_fs.Auth.Hex.RoundTrip.{
  AreBytes, hex_encode-Ascii, byte_len-hex_encode, hex_decode-hex_encode, hex_decode-AreBytes,
  hex_decode_wide,
}
use ouroboros_fs.Auth.Hmac.{
  IsDigest, hmac_sha256, constant_time_eq_iff, constant_time_eq_refl, nonce_len, hmac_len,
}
use ouroboros_fs.Auth.Token.{
  AuthToken, from_bytes, verdict, check_line, accepts, aborts, auth_line, make_auth_line,
  verify_auth_line, check_fields, check_mac,
}

hex-eol : (bs : List ℕ) → AreBytes bs → Free is_eol (hex_encode bs)
hex-eol bs h = All-mono (hex_encode bs) (λ c e. ground arith) (hex_encode-Ascii bs h)

hex-space : (bs : List ℕ) → AreBytes bs → Lacks b' ' (hex_encode bs)
hex-space bs h = All-mono (hex_encode bs) (λ c e. ground arith) (hex_encode-Ascii bs h)

verdict-true : (b : Bool) → verdict b ≡ accepts → b ≡ true
verdict-true true e = refl
verdict-true false e = cc

module _ (sha256 : List ℕ → List ℕ) (d : IsDigest sha256) where
  hmac-bytes : (k m : List ℕ) → AreBytes (hmac_sha256 sha256 k m)
  unfolding hmac_sha256
  hmac-bytes k m = d.digest_bytes _

  hmac-length : (k m : List ℕ) → length (hmac_sha256 sha256 k m) ≡ hmac_len
  unfolding hmac_sha256
  hmac-length k m = d.digest_length _

  own_fields :
      (s nonce : List ℕ)
      → AreBytes nonce
      → length nonce ≡ nonce_len
      → check_fields sha256 s (hex_encode (hmac_sha256 sha256 s nonce) ∷ hex_encode nonce ∷ [])
        ≡ accepts
  unfolding check_fields check_mac
  own_fields s nonce h l =
      let mac = hmac_sha256 sha256 s nonce in
      let hm = hmac-bytes s nonce in
      let lm : byte_len (hex_encode mac) ≡ 64 =
        omega (arith, byte_len-hex_encode mac hm, hmac-length s nonce) in
      let ln : byte_len (hex_encode nonce) ≡ 32 = omega (arith, byte_len-hex_encode nonce h) in
      rw (
        lm,
        ln,
        hex_decode-hex_encode mac hm,
        hex_decode-hex_encode nonce h,
        constant_time_eq_refl mac hm,
      )

  own_line :
      (s nonce : List ℕ)
      → AreBytes nonce
      → length nonce ≡ nonce_len
      → verify_auth_line sha256 (from_bytes s) (auth_line sha256 s nonce) ≡ accepts
  unfolding verify_auth_line auth_line
  own_line s nonce h l =
      let m = hex_encode (hmac_sha256 sha256 s nonce) in
      let n = hex_encode nonce in
      let hm = hmac-bytes s nonce in
      let clean : Free is_eol (codes "AUTH " ++ (m ++ b' ' ∷ n)) = (
        refl,
        (
          refl,
          (
            refl,
            (
              refl,
              (
                refl,
                All-append (λ c. is_eol c ≡ false) m (b' ' ∷ n) (hex-eol _ hm) (refl, hex-eol _ h),
              ),
            ),
          ),
        ),
      ) in
      rw
        (
          trim_eol-line (codes "AUTH " ++ (m ++ b' ' ∷ n)) clean,
          splitn-more 0 b' ' m n (hex-space _ hm),
        )
        (unfold splitn in own_fields s nonce h l)

  made_line :
      (o : Option (List ℕ)) (nonce : List ℕ) (line : Text)
      → AreBytes nonce
      → length nonce ≡ nonce_len
      → make_auth_line sha256 (record { secret = o }) nonce ≡ some line
      → verify_auth_line sha256 (record { secret = o }) line ≡ accepts
  unfolding make_auth_line
  made_line none nonce line h l e = cc
  made_line (some s) nonce line h l e =
      subst (λ x. verify_auth_line sha256 (from_bytes s) x ≡ accepts) (some-injective _ _ e)
        (own_line s nonce h l)

  -- A line made with 16 random bytes is accepted by every node with the same token; SHA-256 gives
  -- 32 bytes.
  pub verify-make_auth_line :
      (t : AuthToken) (nonce : List ℕ) (line : Text)
      → AreBytes nonce
      → length nonce ≡ nonce_len
      → make_auth_line sha256 t nonce ≡ some line
      → verify_auth_line sha256 t line ≡ accepts
  verify-make_auth_line t nonce line h l e = made_line t.secret nonce line h l e

  check_mac-accepts :
      (s : List ℕ) (m n : Decoded)
      → ((bs : List ℕ) → m ≡ decoded bs → AreBytes bs)
      → check_mac sha256 s m n ≡ accepts
      → (nonce : List ℕ) × (m ≡ decoded (hmac_sha256 sha256 s nonce)) × (n ≡ decoded nonce)
  unfolding check_mac
  check_mac-accepts s (decoded m) (decoded n) hm e = (
    n,
    ap decoded ((constant_time_eq_iff m _ (hm m refl) (hmac-bytes s n)).0 (verdict-true _ e)),
    refl,
  )
  check_mac-accepts s (decoded m) malformed hm e = cc
  check_mac-accepts s (decoded m) panics hm e = cc
  check_mac-accepts s malformed n hm e = cc
  check_mac-accepts s panics n hm e = cc

  check_fields-accepts :
      (s : List ℕ) (parts : List Text)
      → check_fields sha256 s parts ≡ accepts
      → check_mac sha256 s (hex_decode (item parts 0)) (hex_decode (item parts 1)) ≡ accepts
  unfolding check_fields
  check_fields-accepts s parts e = ground arith

  -- What an accepted rest of a line holds.
  abbrev pub Proves : List ℕ → Text → List ℕ → Type 0
  Proves s rest nonce =
      (hex_decode (item (splitn 2 b' ' rest) 0) ≡ decoded (hmac_sha256 sha256 s nonce))
      × (hex_decode (item (splitn 2 b' ' rest) 1) ≡ decoded nonce)

  check_line_sound :
      (s : List ℕ) (o : Option Text)
      → check_line sha256 s o ≡ accepts
      → (rest : Text) × (nonce : List ℕ) × (o ≡ some rest) × Proves s rest nonce
  unfolding check_line
  check_line_sound s none e = cc
  check_line_sound s (some rest) e =
      let parts = splitn 2 b' ' rest in
      let (nonce, m, n) =
        check_mac-accepts s (hex_decode (item parts 0)) (hex_decode (item parts 1))
          (hex_decode-AreBytes (item parts 0)) (check_fields-accepts s parts e) in
      (rest, nonce, refl, (m, n))

  -- A node with a secret accepts a line only if it reads `AUTH <mac> <nonce>` with a mac that
  -- decodes to the HMAC of the decoded nonce under that secret; SHA-256 gives 32 bytes.
  pub verify_auth_line_sound :
      (s : List ℕ) (line : Text)
      → verify_auth_line sha256 (from_bytes s) line ≡ accepts
      → (rest : Text) × (nonce : List ℕ) × (strip_prefix (codes "AUTH ") (trim_eol line)
          ≡ some rest)
        × Proves s rest nonce
  unfolding verify_auth_line
  verify_auth_line_sound s line e = check_line_sound s _ e

  -- A line with fields of the right lengths in bytes, whose mac holds no space and begins with an
  -- ASCII character and a wider one, and that has no line break, ends in a panic for every secret.
  pub verify_auth_line-aborts :
      (s : List ℕ) (c w : ℕ) (m n : Text)
      → c < 0x80
      → 0x80 ≤ w
      → byte_len (c ∷ w ∷ m) ≡ 64
      → byte_len n ≡ 32
      → Lacks b' ' (c ∷ w ∷ m)
      → Free is_eol (codes "AUTH " ++ ((c ∷ w ∷ m) ++ b' ' ∷ n))
      → verify_auth_line sha256
          (from_bytes s)
          ((codes "AUTH " ++ ((c ∷ w ∷ m) ++ b' ' ∷ n)) ++ b'\n' ∷ [])
        ≡ aborts
  unfolding verify_auth_line
  verify_auth_line-aborts s c w m n hc hw lm ln sp clean =
      rw
        (
          trim_eol-line (codes "AUTH " ++ ((c ∷ w ∷ m) ++ b' ' ∷ n)) clean,
          splitn-more 0 b' ' (c ∷ w ∷ m) n sp,
        )
        (unfold splitn check_fields check_mac in rw (lm, ln, hex_decode_wide c w m hc hw lm))
