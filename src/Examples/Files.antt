-- ===== src/Examples/Files.antt =====
-- Examples of the gateway's clients: a request without the bearer, a connection passed through, and
-- the files, numbers and names that it reads from a node.
use ouroboros_fs.Base.{
  ℕ, ◌≡◌, ◌≤◌, refl, true, false, List, [], ◌∷◌, ◌++◌, none, some, replicate, arith, All, length,
  map, ok, ltb,
}
use ouroboros_fs.Text.{Text, codes, as_bytes, trim_eol}
use ouroboros_fs.Text.Decimal.{decimal}
use ouroboros_fs.Text.Pieces.{split}
use ouroboros_fs.Text.Utf8.{read_until_newline, from_utf8}
use ouroboros_fs.Map.{Map, get, keys}
use ouroboros_fs.Map.Sort.{sort_keys}
use ouroboros_fs.Auth.Token.{from_bytes, verify_bearer}
use ouroboros_fs.Node.{Node}
use ouroboros_fs.Node.Address.{port_str}
use ouroboros_fs.Node.Netmap.{alive_dead_counts}
use ouroboros_fs.Protocol.Filename.{IsFilename, is_name_byte, is_ascii_alphanumeric}
use ouroboros_fs.Server.Control.{handle_node_metrics, handle_file_list_csv}
use ouroboros_fs.Server.Pull.{handle_file_pull, with_trailer, truncation_trailer}
use ouroboros_fs.Server.Client.Session.Requests.{stream, serve}
use ouroboros_fs.Gateway.Http.{read_http_headers, send_file_response_headers}
use ouroboros_fs.Gateway.Ring.{Gateway, Nodes, Contact, connect_to_ring}
use ouroboros_fs.Gateway.Files.{read_file_list}
use ouroboros_fs.Gateway.Files.Rows.{listed, fetch_file_list-csv}
use ouroboros_fs.Gateway.Metrics.{scraped}
use ouroboros_fs.Gateway.Metrics.Scrape.{counters, FitsCounters, scraped-metrics}
use ouroboros_fs.Gateway.Routes.{
  Payload, method_of, path_of, handle_http_request, handle_connection,
}
use ouroboros_fs.Gateway.Routes.Guard.{Guarded, handle_http_request-Guarded}
use ouroboros_fs.Gateway.Routes.Proxy.{session_of, handle_connection-serves}
use ouroboros_fs.Gateway.Upload.{handle_file_upload}
use ouroboros_fs.Gateway.Upload.Name.{Pushes, handle_file_upload-Pushes}
use ouroboros_fs.Gateway.Download.{read_exact_or_eof, refused, passed, sniffed}
use ouroboros_fs.Gateway.Download.Passes.{handle_file_pull-truncated, handle_file_pull-missing}
use ouroboros_fs.Gateway.Stream.{max_trailer_len}
use ouroboros_fs.Examples.{
  holds, bytes, digest, digest-IsDigest, address_a, node_a, all_up, world, status_request,
  list_request, status-IsRequest, list-IsRequest,
}

abbrev secret : List ℕ
secret = replicate 32 7

abbrev nonce : List ℕ
nonce = replicate 16 1

abbrev nodes : Nodes
nodes = record {
  connects = λ addr. true;
  answers = λ addr request. codes "OK\n" ∷ [];
  prompt = λ addr. true;
}

abbrev gateway : Gateway
gateway = record { node_addrs = address_a ∷ []; auth_token = from_bytes secret }

abbrev to_json : Payload → Text
to_json p = codes "{}"

-- No header at all.
abbrev no_headers : List ℕ
no_headers = codes "\r\n"

abbrev listing : Text
listing = codes "GET /file/list HTTP/1.1\r\n"

headers_read : read_http_headers no_headers ≡ ok (record { fields = []; body = [] })
unfolding read_http_headers read_until_newline from_utf8 trim_eol
headers_read = refl

no_bearer : verify_bearer (from_bytes secret) (get {V = Text} [] (codes "authorization")) ≡ false
unfolding verify_bearer get
no_bearer = refl

handle_http_request-Guarded_example :
    Guarded
      (method_of listing)
      (path_of listing)
      (handle_http_request is_ascii_alphanumeric to_json gateway nodes listing no_headers)
handle_http_request-Guarded_example =
    handle_http_request-Guarded is_ascii_alphanumeric to_json gateway nodes listing no_headers
      (record { fields = []; body = [] }) headers_read no_bearer

abbrev locked : Node
locked = record node_a { auth_token = from_bytes secret }

first_node : connect_to_ring nodes gateway.node_addrs ≡ some address_a
unfolding connect_to_ring
first_node = refl

handle_connection-serves_example :
    (c : Contact) × ((handle_connection is_ascii_alphanumeric to_json gateway nodes
        (stream (status_request ∷ list_request ∷ []))).contacts
      ≡ c ∷ [])
    × (session_of digest world locked nonce c
        ≡ serve digest world 1 locked (status_request ∷ list_request ∷ []))
handle_connection-serves_example =
    handle_connection-serves is_ascii_alphanumeric to_json gateway nodes digest digest-IsDigest
      world locked nonce status_request (list_request ∷ []) address_a first_node refl
      (bytes nonce refl) refl (λ i. refl) (status-IsRequest, (list-IsRequest, tt))

abbrev tagged : Node
tagged = record node_a {
  file_tags = (codes "a.txt", record { start = 7000; size = 3; parts = 2 }) ∷ [];
}

a-IsFilename : IsFilename (codes "a.txt")
unfolding is_name_byte
a-IsFilename = record {
  name_chars = holds is_name_byte (codes "a.txt") refl;
  not_dots = refl;
  fits = omega arith;
}

fetch_file_list-csv_example :
    read_file_list (as_bytes (handle_file_list_csv tagged).reply)
    ≡ ok (map (listed tagged.file_tags) (sort_keys (keys tagged.file_tags)))
unfolding get
fetch_file_list-csv_example =
    fetch_file_list-csv tagged
      (record { valid = a-IsFilename; start_fits = omega arith; size_fits = omega arith }, tt)

port_a : port_str node_a.port ≡ decimal 7000
unfolding port_str split decimal
port_a = refl

counters_fit : FitsCounters node_a
unfolding alive_dead_counts
counters_fit = record {
  pushes = omega arith;
  pulls = omega arith;
  bytes_written = omega arith;
  bytes_read = omega arith;
  broadcasts = omega arith;
  alive_count = omega arith;
  dead_count = omega arith;
}

scraped-metrics_example :
    scraped (as_bytes (handle_node_metrics node_a).reply) ≡ some (counters node_a 7000)
scraped-metrics_example = scraped-metrics node_a 7000 port_a (omega arith) counters_fit

abbrev upload_fields : Map Text
upload_fields = (codes "x-filename", codes "a b.txt") ∷ (codes "content-length", codes "3") ∷ []

named : get upload_fields (codes "x-filename") ≡ some (codes "a b.txt")
unfolding get
named = refl

handle_file_upload-Pushes_example :
    All
      (Pushes is_ascii_alphanumeric
        (record { ascii = λ c h. refl })
        (codes "a b.txt")
        (1 ∷ 2 ∷ 3 ∷ []))
      (handle_file_upload is_ascii_alphanumeric gateway nodes upload_fields (1 ∷ 2 ∷ 3 ∷ [])).1
handle_file_upload-Pushes_example =
    handle_file_upload-Pushes is_ascii_alphanumeric (record { ascii = λ c h. refl }) gateway nodes
      (codes "a b.txt") (1 ∷ 2 ∷ 3 ∷ [])
      (record {
        ascii_only = holds (λ c. ltb c 0x80) (codes "a b.txt") refl;
        not_dots = refl;
        short = omega arith;
      })
      upload_fields named

abbrev cut_answer : List (List ℕ)
cut_answer = codes "abcd\nERR trunc" ∷ codes "ated expected=5 got=4\n" ∷ []

answer_is : ouroboros_fs.Gateway.Stream.Windows.concat cut_answer ≡ with_trailer (codes "abcd") 5
unfolding with_trailer truncation_trailer decimal
answer_is = refl

trailer_fits : length (truncation_trailer 5 4) ≤ max_trailer_len
unfolding truncation_trailer decimal
trailer_fits = omega arith

handle_file_pull-truncated_example :
    sniffed (codes "a.txt") (read_exact_or_eof 4 cut_answer)
    ≡ passed (as_bytes (send_file_response_headers (codes "a.txt")) ++ codes "abcd") true
handle_file_pull-truncated_example =
    handle_file_pull-truncated (codes "a.txt") cut_answer (codes "abcd") 5 (refl, (refl, tt))
      answer_is (omega arith) (omega arith) refl trailer_fits

no_file : get node_a.file_tags (codes "a.txt") ≡ none
unfolding get
no_file = refl

missing : List ℕ
missing = codes "ERR file not found\n"

missing_is :
    ouroboros_fs.Gateway.Stream.Windows.concat (codes "ERR file not found\n" ∷ [])
    ≡ (handle_file_pull all_up (world 0).fetch node_a (codes "a.txt")).output
unfolding handle_file_pull get
missing_is = refl

handle_file_pull-missing_example :
    sniffed (codes "a.txt") (read_exact_or_eof 4 (codes "ERR file not found\n" ∷ []))
    ≡ refused (codes "not found: ERR file not found")
handle_file_pull-missing_example =
    handle_file_pull-missing all_up (world 0).fetch node_a (codes "a.txt")
      (codes "ERR file not found\n" ∷ []) no_file (refl, tt) missing_is
