-- ===== src/Gateway/Routes/Proxy.antt =====
-- The raw TCP path of src/gateway.rs, up to the loop of the node that it reaches.
use ouroboros_fs.Base.{
  ℕ, ◌≡◌, refl, ap, ◌∙◌, Bool, false, List, [], ◌∷◌, ◌++◌, some, length, All, arith,
}
use ouroboros_fs.Text.{Text, as_bytes}
use ouroboros_fs.Text.Utf8.{
  read_until_newline, read_until_newline-line, from_utf8, from_utf8-as_bytes,
}
use ouroboros_fs.Auth.Hex.RoundTrip.{AreBytes}
use ouroboros_fs.Auth.Hmac.{IsDigest, nonce_len}
use ouroboros_fs.Auth.Token.{make_auth_line}
use ouroboros_fs.Protocol.Command.{
  Command, node_next, node_status, node_ping, node_metrics, node_heal, node_heal_hop,
  node_heal_done, ring_forward, topology_walk, topology_hop, topology_done, topology_set,
  netmap_discover, netmap_hop, netmap_done, netmap_set, netmap_get, file_push, file_pull, file_list,
  file_tags_set, file_push_chunk, file_get_chunk, file_backup_push, file_get_backup_chunk,
  file_content_push,
}
use ouroboros_fs.Protocol.Wire.{body, wire}
use ouroboros_fs.Protocol.Lines.{body-Lacks}
use ouroboros_fs.Node.{Node}
use ouroboros_fs.Server.Client.{Round}
use ouroboros_fs.Server.Client.Session.{Session, handle_client}
use ouroboros_fs.Server.Client.Session.Requests.{Request, stream, IsRequest, Prompt, serve}
use ouroboros_fs.Server.Client.Session.Admitted.{greeting, handle_client-serves}
use ouroboros_fs.Gateway.Ring.{Gateway, Nodes, Contact, asks, connect_to_ring}
use ouroboros_fs.Gateway.Routes.{Payload, is_http, handle_tcp_proxy, handle_connection}

-- The session that a connection of the gateway has with a node: the AUTH line of its token, and then
-- its request.
unfoldable pub session_of : (List ℕ → List ℕ) → (ℕ → Round) → Node → List ℕ → Contact → Session
session_of sha256 world n nonce c =
    handle_client sha256 world n (greeting (make_auth_line sha256 c.token nonce) ++ c.request)

newline_joins :
    (bytes : List ℕ) → (read_until_newline bytes).0 ++ (read_until_newline bytes).1 ≡ bytes
unfolding read_until_newline
newline_joins [] = refl
newline_joins (b ∷ bytes) = ground (arith, newline_joins bytes)

-- No command of a node looks like HTTP.
raw_line : (c : Command) → is_http (wire c) ≡ false
unfolding wire body is_http
raw_line (node_next a) = refl
raw_line node_status = refl
raw_line node_ping = refl
raw_line node_metrics = refl
raw_line node_heal = refl
raw_line (node_heal_hop t a) = refl
raw_line (node_heal_done t) = refl
raw_line (ring_forward k m) = refl
raw_line topology_walk = refl
raw_line (topology_hop t a h) = refl
raw_line (topology_done t h) = refl
raw_line (topology_set h) = refl
raw_line netmap_discover = refl
raw_line (netmap_hop t a e) = refl
raw_line (netmap_done t e) = refl
raw_line (netmap_set e) = refl
raw_line netmap_get = refl
raw_line (file_push k f) = refl
raw_line (file_pull f) = refl
raw_line file_list = refl
raw_line (file_tags_set e) = refl
raw_line (file_push_chunk f a b p i j) = refl
raw_line (file_get_chunk f) = refl
raw_line (file_backup_push f k) = refl
raw_line (file_get_backup_chunk f) = refl
raw_line (file_content_push f k) = refl

first_text :
    (q : Request) (rest : List ℕ)
    → IsRequest q
    → from_utf8 (read_until_newline (as_bytes (wire q.command) ++ (q.payload ++ rest))).0
      ≡ some (wire q.command)
unfolding wire
first_text q rest v =
    ap (λ r. from_utf8 (r.0))
      (read_until_newline-line (body q.command) (q.payload ++ rest)
        (body-Lacks q.command v.sendable))
    ∙ from_utf8-as_bytes (wire q.command) v.scalars

module _ (is_alphanumeric : ℕ → Bool) (to_json : Payload → Text) (g : Gateway) (nodes : Nodes) where
  proxied :
      (bytes : List ℕ) (first_line addr : Text)
      → from_utf8 (read_until_newline bytes).0 ≡ some first_line
      → is_http first_line ≡ false
      → connect_to_ring nodes g.node_addrs ≡ some addr
      → (handle_connection is_alphanumeric to_json g nodes bytes).contacts ≡ asks g addr bytes ∷ []
  unfolding handle_connection handle_tcp_proxy
  proxied bytes first_line addr e h c =
      rw (handle_connection, e, h, handle_tcp_proxy, c)
        (ap (λ b. asks g addr b ∷ []) (newline_joins bytes))

  -- A client of the gateway that sends requests and no AUTH line has one connection made for it,
  -- and on that the node serves the requests in order, if a node is reached that has the gateway's
  -- token, the nonce has 16 bytes, no read is late, every request can be sent, is no FILE PUSH,
  -- and names a chunk index below its parts; SHA-256 gives 32 bytes.
  pub handle_connection-serves :
      (sha256 : List ℕ → List ℕ) (d : IsDigest sha256) (world : ℕ → Round) (n : Node)
      (nonce : List ℕ) (q : Request) (qs : List Request) (addr : Text)
      → connect_to_ring nodes g.node_addrs ≡ some addr
      → g.auth_token ≡ n.auth_token
      → AreBytes nonce
      → length nonce ≡ nonce_len
      → Prompt world
      → All IsRequest (q ∷ qs)
      → (c : Contact) × ((handle_connection is_alphanumeric to_json g nodes
            (stream (q ∷ qs))).contacts
          ≡ c ∷ [])
        × (session_of sha256 world n nonce c ≡ serve sha256 world 1 n (q ∷ qs))
  unfolding stream session_of
  handle_connection-serves sha256 d world n nonce q qs addr hc ht hn hl p v =
      let bytes = stream (q ∷ qs) in
      let line : from_utf8 (read_until_newline bytes).0 ≡ some (wire q.command) =
        first_text q (stream qs) v.0 in
      (
        asks g addr bytes,
        proxied bytes (wire q.command) addr line (raw_line q.command) hc,
        ap (λ t. handle_client sha256 world n (greeting (make_auth_line sha256 t nonce) ++ bytes))
              ht
            ∙ handle_client-serves sha256 d world n nonce (q ∷ qs) hn hl p v,
      )
