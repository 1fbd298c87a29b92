-- ===== src/Gateway/Routes/Guard.antt =====
-- What a client of src/gateway.rs reaches without the bearer.
use mathlib.Core.Path.{subst}
use ouroboros_fs.Base.{
  ℕ, ◌≡◌, refl, sym, ap, ◌⊎◌, inl, inr, Bool, true, false, ◌&&◌, ◌||◌, List, [], ◌∷◌, if◌then◌else◌,
  All, arith, unwrap_or, Bool-cases, ok,
}
use ouroboros_fs.Text.{Text, codes, eq_text, eq_text_sound, as_bytes, strip_prefix}
use ouroboros_fs.Map.{get}
use ouroboros_fs.Auth.Token.{verify_bearer}
use ouroboros_fs.Protocol.Command.{node_ping}
use ouroboros_fs.Gateway.Http.{
  Headers, read_http_headers, send_error_response, send_options_response,
}
use ouroboros_fs.Gateway.Ring.{Gateway, Nodes, Contact, command_bytes}
use ouroboros_fs.Gateway.Status.{fetch_node_map, any_alive, pings}
use ouroboros_fs.Gateway.Routes.{
  Payload, Exchange, says, method_of, path_of, starts_with, download, handle_metrics_request,
  handle_health_request, with_headers, route, handle_http_request,
}

abbrev pub IsPing : Contact → Type 0
IsPing c = c.request ≡ command_bytes node_ping []

-- The requests that need no bearer: the preflight and the two probes.
unfoldable pub is_open : Text → Text → Bool
is_open method path =
    eq_text method (codes "OPTIONS")
    || eq_text method (codes "GET")
      && (eq_text path (codes "/health") || eq_text path (codes "/ready"))

-- A request that is refused, or open; the ring sees no more than pings.
pub record Guarded (method path : Text) (x : Exchange) : Type 0 where
  pub only_pings : All IsPing x.contacts
  pub answers :
      (x.written ≡ as_bytes (send_error_response 401 (codes "Unauthorized")))
      ⊎ (is_open method path ≡ true)

pings-IsPing : (g : Gateway) (nodes : Nodes) (addrs : List Text) → All IsPing (pings g nodes addrs)
unfolding pings
pings-IsPing g nodes [] = tt
pings-IsPing g nodes (addr ∷ addrs) = elim (Bool-cases (nodes.connects addr)) [
  | inl e ↦ rw e (refl, pings-IsPing g nodes addrs)
  | inr e ↦ rw e (pings-IsPing g nodes addrs)
]

not_options :
    (method : Text) → eq_text method (codes "GET") ≡ true → eq_text method (codes "OPTIONS") ≡ false
not_options method e = ap (λ m. eq_text m (codes "OPTIONS")) (eq_text_sound method (codes "GET") e)

module _ (is_alphanumeric : ℕ → Bool) (to_json : Payload → Text) (g : Gateway) (nodes : Nodes) where
  health-IsPing :
      (path : Text)
      → All IsPing (handle_health_request is_alphanumeric to_json g nodes path).contacts
  unfolding handle_health_request fetch_node_map
  health-IsPing path = elim (Bool-cases (eq_text path (codes "/health"))) [
    | inl e ↦ rw e tt
    | inr e ↦ elim (Bool-cases (any_alive (fetch_node_map g nodes).0)) [
      | inl a ↦ rw (e, a) (pings-IsPing g nodes g.node_addrs)
      | inr a ↦ rw (e, a) (pings-IsPing g nodes g.node_addrs)
    ]
  ]

  -- What stands behind the check of the bearer.
  abbrev behind : Text → Text → Headers → Exchange
  behind method path headers =
      let is_get = eq_text method (codes "GET") in
      if is_get && eq_text path (codes "/metrics")
      then handle_metrics_request is_alphanumeric to_json g nodes
      else if is_get && starts_with path (codes "/file/pull/")
      then download is_alphanumeric to_json g nodes
          (unwrap_or (strip_prefix (codes "/file/pull/") path) [])
      else route is_alphanumeric to_json g nodes method path headers

  preflight :
      (method path : Text) (headers : Headers)
      → eq_text method (codes "OPTIONS") ≡ true
      → behind method path headers ≡ says send_options_response []
  unfolding route
  preflight method path headers e = rw (eq_text_sound method (codes "OPTIONS") e)

  with_headers-Guarded :
      (method path : Text) (headers : Headers)
      → verify_bearer g.auth_token (get headers.fields (codes "authorization")) ≡ false
      → Guarded method path (with_headers is_alphanumeric to_json g nodes method path headers)
  unfolding with_headers is_open
  with_headers-Guarded method path headers v =
      let probe = eq_text path (codes "/health") || eq_text path (codes "/ready") in
      elim (Bool-cases (eq_text method (codes "GET") && probe)) [
        | inl e ↦
            rw e (record { only_pings = health-IsPing path; answers = inr (ground (arith, e)) })
        | inr e ↦ elim (Bool-cases (eq_text method (codes "OPTIONS"))) [
          | inl o ↦
              rw (e, o)
                (subst (Guarded method path) (sym (preflight method path headers o))
                  (record { only_pings = tt; answers = inr (ground (arith, o)) }))
          | inr o ↦ rw (e, o, v) (record { only_pings = tt; answers = inl refl })
        ]
      ]

  read_headers :
      (first_line : Text) (reader : List ℕ) (headers : Headers)
      → read_http_headers reader ≡ ok headers
      → handle_http_request is_alphanumeric to_json g nodes first_line reader
        ≡ with_headers is_alphanumeric to_json g nodes
            (method_of first_line)
            (path_of first_line)
            headers
  unfolding handle_http_request
  read_headers first_line reader headers e = rw (handle_http_request, e)

  -- A request whose headers were read and hold no valid bearer sends nothing but PING to the ring,
  -- and is answered 401 Unauthorized unless it is OPTIONS or a GET of /health or /ready.
  pub handle_http_request-Guarded :
      (first_line : Text) (reader : List ℕ) (headers : Headers)
      → read_http_headers reader ≡ ok headers
      → verify_bearer g.auth_token (get headers.fields (codes "authorization")) ≡ false
      → Guarded
          (method_of first_line)
          (path_of first_line)
          (handle_http_request is_alphanumeric to_json g nodes first_line reader)
  handle_http_request-Guarded first_line reader headers e v =
      rw (read_headers first_line reader headers e)
        (with_headers-Guarded (method_of first_line) (path_of first_line) headers v)
