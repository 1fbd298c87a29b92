-- ===== src/Server/Client/Session/Guard.antt =====
-- The handshake of `handle_client` (src/server.rs): what a client without the secret can reach.
use mathlib.Core.Path.{subst}
use ouroboros_fs.Base.{
  ℕ, ◌≡◌, refl, ap, ◌∙◌, ◌⊎◌, inl, inr, true, List, [], ◌∷◌, Option, none, some, Bool-cases,
}
use ouroboros_fs.Text.{Text, codes, trim_eol, strip_prefix}
use ouroboros_fs.Text.Utf8.{read_until_newline, from_utf8}
use ouroboros_fs.Auth.Hmac.{IsDigest}
use ouroboros_fs.Auth.Token.{
  from_bytes, is_enabled, Verdict, accepts, rejects, aborts, verify_auth_line,
}
use ouroboros_fs.Auth.Token.Line.{Proves, verify_auth_line_sound}
use ouroboros_fs.Node.{Node}
use ouroboros_fs.Server.Client.{Round}
use ouroboros_fs.Server.Client.Session.{Session, verified, checked, shaken, handle_client}

-- Nothing was done for this client.
pub record Untouched (n : Node) (s : Session) : Type 0 where
  pub same_node : s.node ≡ n
  pub sends_nothing : s.sent ≡ []
  pub starts_nothing : s.spawned ≡ []

module _ (sha256 : List ℕ → List ℕ) (world : ℕ → Round) (d : IsDigest sha256) where
  -- The first line of the stream holds a mac of the secret over a nonce.
  pub record Proven (secret reader : List ℕ) : Type 0 where
    pub line : Text
    pub rest : Text
    pub nonce : List ℕ
    pub first_line : from_utf8 (read_until_newline reader).0 ≡ some line
    pub says_auth : strip_prefix (codes "AUTH ") (trim_eol line) ≡ some rest
    pub proves : Proves sha256 d secret rest nonce

  verified-Untouched :
      (n : Node) (reader : List ℕ) (v : Verdict)
      → Untouched n (verified sha256 world n reader v) ⊎ (v ≡ accepts)
  unfolding verified
  verified-Untouched n reader accepts = inr refl
  verified-Untouched n reader rejects =
      inl (record { same_node = refl; sends_nothing = refl; starts_nothing = refl })
  verified-Untouched n reader aborts =
      inl (record { same_node = refl; sends_nothing = refl; starts_nothing = refl })

  module _ (secret : List ℕ) (n : Node) (e : n.auth_token ≡ from_bytes secret) where
    enabled : is_enabled n.auth_token ≡ true
    unfolding is_enabled
    enabled = rw e

    checked-Untouched :
        (l reader : List ℕ) (t : Option Text)
        → from_utf8 l ≡ t
        → Untouched n (checked sha256 world n reader t)
          ⊎ ((line rest : Text) × (nonce : List ℕ) × (t ≡ some line)
              × (strip_prefix (codes "AUTH ") (trim_eol line) ≡ some rest)
              × Proves sha256 d secret rest nonce)
    unfolding checked
    checked-Untouched l reader none ht =
        inl (record { same_node = refl; sends_nothing = refl; starts_nothing = refl })
    checked-Untouched l reader (some line) ht =
        elim (verified-Untouched n reader (verify_auth_line sha256 n.auth_token line)) [
          | inl u ↦ inl u
          | inr v ↦
              let (rest, nonce, says, proves) =
                verify_auth_line_sound sha256 d secret line
                  (subst (λ t. verify_auth_line sha256 t line ≡ accepts) e v) in
              inr (line, rest, nonce, refl, says, proves)
        ]

    shaken-Untouched :
        (l r : List ℕ) (reader : List ℕ)
        → read_until_newline reader ≡ (l, r)
        → Untouched n (shaken sha256 world n (l, r)) ⊎ Proven secret reader
    unfolding shaken
    shaken-Untouched [] r reader h = elim (verified-Untouched n r rejects) [
      | inl u ↦ inl u
      | inr v ↦ cc
    ]
    shaken-Untouched (b ∷ l) r reader h =
        elim (checked-Untouched (b ∷ l) r (from_utf8 (b ∷ l)) refl) [
          | inl u ↦ inl u
          | inr (line, rest, nonce, ht, says, proves) ↦ inr (record {
            line = line;
            rest = rest;
            nonce = nonce;
            first_line = ap (λ p. from_utf8 p.0) h ∙ ht;
            says_auth = says;
            proves = proves;
          })
        ]

    -- On a node with a secret, a connection either leaves the node as it was, with no message and
    -- no process, or its first line is an AUTH line with a mac of that secret over its nonce;
    -- SHA-256 gives 32 bytes.
    pub handle_client-guarded :
        (reader : List ℕ) → Untouched n (handle_client sha256 world n reader) ⊎ Proven secret reader
    unfolding handle_client
    handle_client-guarded reader = elim (Bool-cases (world 0).late) [
      | inl l ↦ inl (
          rw (enabled, l)
            (record { same_node = refl; sends_nothing = refl; starts_nothing = refl }))
      | inr l ↦ rw (enabled, l) (shaken-Untouched _ _ reader refl)
    ]
