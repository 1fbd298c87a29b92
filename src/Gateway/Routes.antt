-- ===== src/Gateway/Routes.antt =====
-- One client of the gateway: `handle_connection`, `handle_http_request`, `handle_health_request`,
-- `handle_metrics_request` and `handle_tcp_proxy` of src/gateway.rs. The JSON of the crate `serde_json`
-- is a parameter.
pub mod Guard
pub mod Proxy
use ouroboros_fs.Base.{
  ℕ, Bool, true, false, not, ◌&&◌, ◌||◌, List, [], ◌∷◌, ◌++◌, Option, none, some, if◌then◌else◌,
  is_some, unwrap_or, Result, ok, err,
}
use ouroboros_fs.Text.{Text, codes, eq_text, is_empty, strip_prefix, as_bytes}
use ouroboros_fs.Text.Pieces.{split_whitespace}
use ouroboros_fs.Text.Utf8.{read_until_newline, from_utf8}
use ouroboros_fs.Map.{Map, get}
use ouroboros_fs.Auth.Token.{verify_bearer}
use ouroboros_fs.Node.Status.{NodeStatus}
use ouroboros_fs.Gateway.Http.{
  Headers, read_http_headers, send_options_response, send_json_response, send_metrics_response,
  send_error_response,
}
use ouroboros_fs.Gateway.Ring.{Gateway, Nodes, Contact, asks, connect_to_ring, joined}
use ouroboros_fs.Gateway.Status.{fetch_node_map, any_alive, trigger_node_heal}
use ouroboros_fs.Gateway.Files.{FileInfo, fetch_file_list}
use ouroboros_fs.Gateway.Upload.{handle_file_upload, oversized_err_tag}
use ouroboros_fs.Gateway.Download.{Download, refused, passed, handle_file_pull}
use ouroboros_fs.Gateway.Metrics.{fetch_metrics, render_prometheus}

-- What is sent as JSON.
pub data Payload : Type 0 where
  status_ok ready : Payload
  node_map : Map NodeStatus → Payload
  files : List FileInfo → Payload
  message : Text → Payload

-- What the client gets, and the connections to the ring.
pub record Exchange : Type 0 where
  pub written : List ℕ
  pub contacts : List Contact

abbrev pub says : Text → List Contact → Exchange
says response contacts = record { written = as_bytes response; contacts = contacts }

-- The item at the front, `unwrap_or(default)`.
first_word : List Text → Text → Text
first_word [] d = d
first_word (w ∷ ws) d = w

rest_words : List Text → List Text
rest_words [] = []
rest_words (w ∷ ws) = ws

unfoldable pub method_of : Text → Text
unfolding first_word
method_of first_line = first_word (split_whitespace first_line) (codes "GET")

unfoldable pub path_of : Text → Text
unfolding first_word rest_words
path_of first_line = first_word (rest_words (split_whitespace first_line)) (codes "/")

-- `starts_with`
abbrev pub starts_with : Text → Text → Bool
starts_with s prefix = is_some (strip_prefix prefix s)

-- The sniffer.
unfoldable pub is_http : Text → Bool
is_http first_line =
    starts_with first_line (codes "GET /")
    || starts_with first_line (codes "POST /")
    || starts_with first_line (codes "OPTIONS /")

failure : Text → List Contact → Exchange
failure e contacts = says (send_error_response 500 e) contacts

-- An oversized body has its own status.
upload_error : Text → Option Text → Text
upload_error e none = send_error_response 500 e
upload_error e (some rest) = send_error_response 413 rest

download_error : Text → Text
download_error e = send_error_response (if starts_with e (codes "not found:") then 404 else 500) e

answer_download : Download × List Contact → Exchange
unfolding download_error
answer_download (refused e, contacts) = says (download_error e) contacts
answer_download (passed written truncated, contacts) = record {
  written = written;
  contacts = contacts;
}

module _ (is_alphanumeric : ℕ → Bool) (to_json : Payload → Text) (g : Gateway) (nodes : Nodes) where
  json : Payload → List Contact → Exchange
  json p contacts = says (send_json_response (to_json p)) contacts

  answer_list : Result (List FileInfo) Text × List Contact → Exchange
  unfolding json failure
  answer_list (ok list, contacts) = json (files list) contacts
  answer_list (err e, contacts) = failure e contacts

  answer_heal : Result Text Text × List Contact → Exchange
  unfolding json failure
  answer_heal (ok msg, contacts) = json (message msg) contacts
  answer_heal (err e, contacts) = failure e contacts

  answer_upload : Result (Unit {0}) Text × List Contact → Exchange
  unfolding json upload_error
  answer_upload (ok done, contacts) = json status_ok contacts
  answer_upload (err e, contacts) =
      says (upload_error e (strip_prefix oversized_err_tag e)) contacts

  unfoldable pub handle_health_request : Text → Exchange
  unfolding json
  handle_health_request path =
      let fetched = fetch_node_map g nodes in
      if eq_text path (codes "/health")
      then json status_ok []
      else if any_alive (fetched.0)
      then json ready fetched.1
      else says (send_error_response 503 (codes "no ring nodes alive")) fetched.1

  unfoldable pub handle_metrics_request : Exchange
  handle_metrics_request =
      let fetched = fetch_metrics g nodes in
      says (send_metrics_response (render_prometheus (fetched.0))) fetched.1

  -- The name behind `/file/pull/`.
  download : Text → Exchange
  unfolding answer_download
  download filename =
      if is_empty filename
      then says (send_error_response 404 (codes "Not Found: missing filename")) []
      else answer_download (handle_file_pull g nodes filename)

  -- The `match (method, path)`.
  unfoldable pub route : Text → Text → Headers → Exchange
  unfolding json answer_list answer_heal answer_upload
  route method path headers =
      let is_get = eq_text method (codes "GET") in
      let is_post = eq_text method (codes "POST") in
      if eq_text method (codes "OPTIONS")
      then says send_options_response []
      else if is_get && eq_text path (codes "/netmap/get")
      then (let fetched = fetch_node_map g nodes in json (node_map (fetched.0)) fetched.1)
      else if is_get && eq_text path (codes "/file/list")
      then answer_list (fetch_file_list g nodes)
      else if is_post && eq_text path (codes "/file/push")
      then answer_upload (handle_file_upload is_alphanumeric g nodes headers.fields headers.body)
      else if is_post && eq_text path (codes "/network/heal")
      then answer_heal (trigger_node_heal g nodes)
      else says (send_error_response 404 (codes "Not Found")) []

  -- The checks in their order: the probes, the bearer, and then the rest.
  unfoldable pub with_headers : Text → Text → Headers → Exchange
  unfolding download
  with_headers method path headers =
      let is_get = eq_text method (codes "GET") in
      if is_get && (eq_text path (codes "/health") || eq_text path (codes "/ready"))
      then handle_health_request path
      else if not (eq_text method (codes "OPTIONS"))
          && not (verify_bearer g.auth_token (get headers.fields (codes "authorization")))
      then says (send_error_response 401 (codes "Unauthorized")) []
      else if is_get && eq_text path (codes "/metrics")
      then handle_metrics_request
      else if is_get && starts_with path (codes "/file/pull/")
      then download (unwrap_or (strip_prefix (codes "/file/pull/") path) [])
      else route method path headers

  unfoldable pub handle_http_request : Text → List ℕ → Exchange
  handle_http_request first_line reader = elim (read_http_headers reader) [
    | err e ↦ says (send_error_response 400 (codes "Bad Request: malformed headers")) []
    | ok headers ↦ with_headers (method_of first_line) (path_of first_line) headers
  ]

  -- The client's bytes, from its first line on, behind the AUTH line of the gateway's own token; and
  -- the node's bytes back.
  unfoldable pub handle_tcp_proxy : List ℕ → Exchange
  handle_tcp_proxy bytes = elim (connect_to_ring nodes g.node_addrs) [
    | none ↦ record { written = []; contacts = [] }
    | some addr ↦ record {
      written = joined (nodes.answers addr bytes);
      contacts = asks g addr bytes ∷ [];
    }
  ]

  -- A first line that is not text ends the connection.
  unfoldable pub handle_connection : List ℕ → Exchange
  handle_connection bytes =
      let cut = read_until_newline bytes in
      elim (from_utf8 (cut.0)) [
        | none ↦ record { written = []; contacts = [] }
        | some first_line ↦
            if is_http first_line
            then handle_http_request first_line (cut.1)
            else handle_tcp_proxy (cut.0 ++ cut.1)
      ]
