-- ===== src/Server/Client/Session/Admitted.antt =====
-- A client of src/server.rs that greets with the line of its token and then sends requests.
use ouroboros_fs.Base.{
  ℕ, ◌+◌, ◌≡◌, ◌≢◌, refl, ap, ◌∙◌, true, false, List, [], ◌∷◌, ◌++◌, Option, none, some, ◌==◌,
  length, arith, All, All-mono, All-append,
}
use ouroboros_fs.Text.{Text, codes, as_bytes, Lacks}
use ouroboros_fs.Text.Utf8.{
  read_until_newline-line, from_utf8, from_utf8-as_bytes, AreScalars, is_scalar, bytes_end,
}
use ouroboros_fs.Auth.Hex.{hex_encode}
use ouroboros_fs.Auth.Hex.RoundTrip.{AreBytes, hex_encode-Ascii}
use ouroboros_fs.Auth.Hmac.{IsDigest, hmac_sha256, nonce_len}
use ouroboros_fs.Auth.Token.{
  AuthToken, from_bytes, is_enabled, accepts, auth_line, make_auth_line, verify_auth_line,
}
use ouroboros_fs.Auth.Token.Line.{verify-make_auth_line}
use ouroboros_fs.Node.{Node}
use ouroboros_fs.Server.Client.{Round}
use ouroboros_fs.Server.Client.Session.{client_loop, verified, checked, shaken, handle_client}
use ouroboros_fs.Server.Client.Session.Requests.{
  Request, stream, IsRequest, Prompt, serve, serves, fuel_enough,
}

-- What `send_auth` writes first.
unfoldable pub greeting : Option Text → List ℕ
greeting none = []
greeting (some line) = as_bytes line

module _ (sha256 : List ℕ → List ℕ) (d : IsDigest sha256) where
  -- The line of a secret, without its line break.
  abbrev fields : List ℕ → List ℕ → Text
  fields secret nonce =
      codes "AUTH " ++ (hex_encode (hmac_sha256 sha256 secret nonce) ++ b' ' ∷ hex_encode nonce)

  hex_Lacks : (bs : List ℕ) → AreBytes bs → Lacks b'\n' (hex_encode bs)
  hex_Lacks bs h = All-mono (hex_encode bs) (λ c e. ground arith) (hex_encode-Ascii bs h)

  hex-AreScalars : (bs : List ℕ) → AreBytes bs → AreScalars (hex_encode bs)
  hex-AreScalars bs h = All-mono (hex_encode bs) (λ c e. ground arith) (hex_encode-Ascii bs h)

  mac-AreBytes : (k m : List ℕ) → AreBytes (hmac_sha256 sha256 k m)
  unfolding hmac_sha256
  mac-AreBytes k m = d.digest_bytes _

  five :
      (P : ℕ → Type 0) (s : Text)
      → P b'A'
      → P b'U'
      → P b'T'
      → P b'H'
      → P b' '
      → All P s
      → All P (codes "AUTH " ++ s)
  five P s a u t h b r = (a, (u, (t, (h, (b, r)))))

  fields_Lacks : (secret nonce : List ℕ) → AreBytes nonce → Lacks b'\n' (fields secret nonce)
  fields_Lacks secret nonce h =
      five (λ c. (c == b'\n') ≡ false) _ refl refl refl refl refl
        (All-append (λ c. (c == b'\n') ≡ false) (hex_encode (hmac_sha256 sha256 secret nonce)) _
          (hex_Lacks _ (mac-AreBytes secret nonce)) (refl, hex_Lacks nonce h))

  line-AreScalars :
      (secret nonce : List ℕ) → AreBytes nonce → AreScalars (fields secret nonce ++ b'\n' ∷ [])
  line-AreScalars secret nonce h =
      All-append (λ c. is_scalar c ≡ true) (fields secret nonce) (b'\n' ∷ [])
        (five (λ c. is_scalar c ≡ true) _ refl refl refl refl refl
          (All-append (λ c. is_scalar c ≡ true) (hex_encode (hmac_sha256 sha256 secret nonce)) _
            (hex-AreScalars _ (mac-AreBytes secret nonce)) (refl, hex-AreScalars nonce h)))
        (refl, tt)

  module _ (world : ℕ → Round) (n : Node) (nonce : List ℕ) where
    bytes_shaken :
        (l r : List ℕ)
        → l ≢ []
        → shaken sha256 world n (l, r) ≡ checked sha256 world n r (from_utf8 l)
    unfolding shaken
    bytes_shaken [] r ne = absurd (ne refl)
    bytes_shaken (b ∷ l) r ne = refl

    token_kept : (t : AuthToken) → n.auth_token ≡ t → is_enabled n.auth_token ≡ is_enabled t
    token_kept t e = ap is_enabled e

    -- A line that is verified opens the loop.
    opened :
        (secret rest : List ℕ)
        → n.auth_token ≡ from_bytes secret
        → AreBytes nonce
        → length nonce ≡ nonce_len
        → (world 0).late ≡ false
        → handle_client sha256 world n (as_bytes (fields secret nonce ++ b'\n' ∷ []) ++ rest)
          ≡ client_loop sha256 world (length rest + 1) 1 n rest
    unfolding handle_client checked verified auth_line make_auth_line is_enabled
    opened secret rest e h l late =
        let line = fields secret nonce ++ b'\n' ∷ [] in
        let on : is_enabled n.auth_token ≡ true = token_kept (from_bytes secret) e in
        let good : verify_auth_line sha256 n.auth_token line ≡ accepts =
          ap (λ t. verify_auth_line sha256 t line) e
          ∙ verify-make_auth_line sha256 d (from_bytes secret) nonce line h l refl in
        rw (on, late)
          (ap (shaken sha256 world n)
              (read_until_newline-line (fields secret nonce) rest (fields_Lacks secret nonce h))
            ∙ bytes_shaken (as_bytes line) rest (bytes_end (fields secret nonce))
            ∙ ap (checked sha256 world n rest)
                (from_utf8-as_bytes line (line-AreScalars secret nonce h))
            ∙ ap (verified sha256 world n rest) good)

    open_door :
        (rest : List ℕ)
        → is_enabled n.auth_token ≡ false
        → handle_client sha256 world n rest ≡ client_loop sha256 world (length rest + 1) 1 n rest
    unfolding handle_client
    open_door rest e = rw e

    greeted :
        (o : Option (List ℕ)) (rest : List ℕ)
        → n.auth_token ≡ record { secret = o }
        → AreBytes nonce
        → length nonce ≡ nonce_len
        → (world 0).late ≡ false
        → handle_client sha256 world n
            (greeting (make_auth_line sha256 (record { secret = o }) nonce) ++ rest)
          ≡ client_loop sha256 world (length rest + 1) 1 n rest
    unfolding greeting make_auth_line auth_line is_enabled
    greeted none rest e h l late = open_door rest (token_kept (record { secret = none }) e)
    greeted (some secret) rest e h l late = opened secret rest e h l late

    -- A client that greets with the line that the node's token makes over 16 random bytes, and
    -- then sends requests with their bodies, gets from the byte loop exactly the session of the
    -- handlers called in the order of the requests, each with its own body, if no read is late,
    -- every request can be sent, is no FILE PUSH, and names a chunk index below its parts; SHA-256
    -- gives 32 bytes.
    pub handle_client-serves :
        (qs : List Request)
        → AreBytes nonce
        → length nonce ≡ nonce_len
        → Prompt world
        → All IsRequest qs
        → handle_client sha256 world n
            (greeting (make_auth_line sha256 n.auth_token nonce) ++ stream qs)
          ≡ serve sha256 world 1 n qs
    handle_client-serves qs h l p v =
        greeted n.auth_token.secret (stream qs) refl h l (p 0)
        ∙ serves sha256 world (length (stream qs) + 1) 1 n qs p v (fuel_enough sha256 world qs)
