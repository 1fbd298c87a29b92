-- ===== src/Gateway/Upload/Name.antt =====
-- The names of uploads: what src/gateway.rs makes of `X-Filename`, and what a node makes of that.
use ouroboros_fs.Base.{
  ℕ, suc, ◌≤◌, ◌<◌, ◌≡◌, refl, ap, ◌∙◌, Bool, true, false, List, [], ◌∷◌, Option, none, some, ◌==◌,
  ltb, length, take, All, all, arith, Bool-cases, inl, inr, ok,
}
use ouroboros_fs.Text.{Text, codes}
use ouroboros_fs.Map.{Map, get}
use ouroboros_fs.Protocol.Command.{file_push}
use ouroboros_fs.Protocol.Filename.{IsFilename, is_name_byte, is_ascii_alphanumeric}
use ouroboros_fs.Protocol.Parse.{parse_line}
use ouroboros_fs.Protocol.Wire.{wire}
use ouroboros_fs.Protocol.RoundTrip.{parse_line-wire}
use ouroboros_fs.Gateway.Ring.{Gateway, Nodes, Contact, command_bytes, connect_to_ring}
use ouroboros_fs.Gateway.Upload.{
  max_reasonable_bytes, sanitized, push_to, sized_upload, declared, handle_file_upload,
}

-- `char::is_alphanumeric` on the ASCII characters.
pub record OnAscii (is_alphanumeric : ℕ → Bool) : Type 0 where
  pub ascii : (c : ℕ) → c < 0x80 → is_alphanumeric c ≡ is_ascii_alphanumeric c

module _ (is_alphanumeric : ℕ → Bool) (o : OnAscii is_alphanumeric) where
  sanitized-name :
      (raw : Text)
      → All (λ c. ltb c 0x80 ≡ true) raw
      → All (λ c. is_name_byte c ≡ true) (sanitized is_alphanumeric raw)
  unfolding sanitized is_name_byte
  sanitized-name [] h = tt
  sanitized-name (c ∷ raw) h = (ground (arith, o.ascii c), sanitized-name raw h.1)

  sanitized-length : (raw : Text) → length (sanitized is_alphanumeric raw) ≡ length raw
  unfolding sanitized
  sanitized-length [] = refl
  sanitized-length (c ∷ raw) = ap (λ k. suc k) (sanitized-length raw)

  sanitized-dots :
      (raw : Text)
      → All (λ c. ltb c 0x80 ≡ true) raw
      → all (λ c. c == b'.') (sanitized is_alphanumeric raw) ≡ all (λ c. c == b'.') raw
  unfolding sanitized
  sanitized-dots [] h = refl
  sanitized-dots (c ∷ raw) h = ground (arith, sanitized-dots raw h.1, o.ascii c)

  -- A name that the client may send: ASCII, not dots alone, of 255 characters at most.
  pub record IsRaw (raw : Text) : Type 0 where
    pub ascii_only : All (λ c. ltb c 0x80 ≡ true) raw
    pub not_dots : all (λ c. c == b'.') raw ≡ false
    pub short : length raw ≤ 255

  sanitized-IsFilename : (raw : Text) → IsRaw raw → IsFilename (sanitized is_alphanumeric raw)
  sanitized-IsFilename raw r = record {
    name_chars = sanitized-name raw r.ascii_only;
    not_dots = sanitized-dots raw r.ascii_only ∙ r.not_dots;
    fits = omega (arith, r.short, sanitized-length raw);
  }

  -- A push of the ring: its line is one that a node parses, and its size is within the bounds.
  pub record Pushes (raw : Text) (body : List ℕ) (c : Contact) : Type 0 where
    pub size : ℕ
    pub declares : 0 < size
    pub bounded : size ≤ max_reasonable_bytes
    pub sends :
        c.request ≡ command_bytes (file_push size (sanitized is_alphanumeric raw)) (take size body)
    pub parses :
        parse_line (wire (file_push size (sanitized is_alphanumeric raw)))
        ≡ ok (file_push size (sanitized is_alphanumeric raw))

  module _ (g : Gateway) (nodes : Nodes) (raw : Text) (body : List ℕ) (r : IsRaw raw) where
    reached :
        (size : ℕ) (addr : Option Text)
        → 0 < size
        → size ≤ max_reasonable_bytes
        → All
            (Pushes raw body)
            (push_to is_alphanumeric g nodes size (sanitized is_alphanumeric raw) body addr).1
    unfolding push_to
    reached size none p b = tt
    reached size (some addr) p b = (
      record {
        size = size;
        declares = p;
        bounded = b;
        sends = refl;
        parses =
            parse_line-wire (file_push size (sanitized is_alphanumeric raw))
              (omega arith, sanitized-IsFilename raw r);
      },
      tt,
    )

    checked_size :
        (size : ℕ)
        → All (Pushes raw body) (sized_upload is_alphanumeric g nodes size body (some raw)).1
    unfolding sized_upload
    checked_size size = elim (Bool-cases (size == 0)) [
      | inl z ↦ rw z tt
      | inr z ↦ elim (Bool-cases (ltb max_reasonable_bytes size)) [
        | inl b ↦ rw (z, b) tt
        | inr b ↦
            rw (z, b)
              (reached size (connect_to_ring nodes g.node_addrs) (ground (arith, z))
                (ground (arith, b)))
      ]
    ]

    -- An upload sends at most pushes whose size is above zero and at most 50 GiB, with no more of
    -- the body than that size, and whose line a node parses as the push of the sanitized name, if
    -- the raw name is ASCII, has 255 characters or fewer, and is not dots alone.
    pub handle_file_upload-Pushes :
        (fields : Map Text)
        → get fields (codes "x-filename") ≡ some raw
        → All (Pushes raw body) (handle_file_upload is_alphanumeric g nodes fields body).1
    unfolding handle_file_upload
    handle_file_upload-Pushes fields e =
        rw e (checked_size (declared (get fields (codes "content-length"))))
