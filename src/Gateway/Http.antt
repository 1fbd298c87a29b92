-- ===== src/Gateway/Http.antt =====
-- HTTP as src/gateway.rs reads and writes it: `read_http_headers` and the responses.
use ouroboros_fs.Base.{
  ℕ, zero, suc, List, [], ◌∷◌, ◌++◌, Option, none, some, ltb, if◌then◌else◌, length, Result, ok,
  err,
}
use ouroboros_fs.Text.{Text, codes, byte_len, trim, trim_eol, is_empty, to_ascii_lowercase}
use ouroboros_fs.Text.Pieces.{split_once}
use ouroboros_fs.Text.Decimal.{decimal}
use ouroboros_fs.Text.Utf8.{read_until_newline, from_utf8}
use ouroboros_fs.Map.{Map, insert}

abbrev pub max_headers : ℕ
max_headers = 64

abbrev pub max_line_len : ℕ
max_line_len = 8192

-- The headers, and the body behind the empty line.
pub record Headers : Type 0 where
  pub fields : Map Text
  pub body : List ℕ

-- `split_once(':')`: a line without a colon is passed over.
unfoldable pub add_header : Map Text → Option (Text × Text) → Map Text
add_header m none = m
add_header m (some (k, v)) = insert m (to_ascii_lowercase (trim k)) (trim v)

-- One line of the loop: its text, and the loop's next round.
header_text :
    Map Text → List ℕ → (Map Text → Result Headers Text) → Option Text → Result Headers Text
header_text m rest next none = err (codes "stream did not contain valid UTF-8")
header_text m rest next (some line) =
    let trimmed = trim_eol line in
    if is_empty trimmed
    then ok (record { fields = m; body = rest })
    else next (add_header m (split_once b':' trimmed))

unterminated : Result Headers Text
unterminated = err (codes "too many or unterminated headers")

header_line :
    Map Text → (Map Text → List ℕ → Result Headers Text) → List ℕ × List ℕ → Result Headers Text
unfolding header_text unterminated
header_line m next ([], rest) = unterminated
header_line m next (b ∷ line, rest) =
    if ltb max_line_len (length (b ∷ line))
    then err (codes "header line too long")
    else header_text m rest (λ m'. next m' rest) (from_utf8 (b ∷ line))

-- `for _ in 0..MAX_HEADERS`.
header_loop : ℕ → Map Text → List ℕ → Result Headers Text
unfolding header_line unterminated
header_loop zero m reader = unterminated
header_loop (suc k) m reader = header_line m (header_loop k) (read_until_newline reader)

unfoldable pub read_http_headers : List ℕ → Result Headers Text
unfolding header_loop
read_http_headers reader = header_loop max_headers [] reader

-- The responses. A length counts bytes.
unfoldable pub send_options_response : Text
send_options_response =
    codes "HTTP/1.1 204 No Content\r\nAllow: POST, GET, OPTIONS\r\nConnection: close\r\n\r\n"

unfoldable pub send_file_response_headers : Text → Text
send_file_response_headers filename =
    codes "HTTP/1.1 200 OK\r\nContent-Type: application/octet-stream\r\n"
    ++ (codes "Content-Disposition: attachment; filename=\""
        ++ (filename ++ codes "\"\r\nConnection: close\r\n\r\n"))

unfoldable pub send_json_response : Text → Text
send_json_response json =
    codes "HTTP/1.1 200 OK\r\nContent-Type: application/json\r\nContent-Length: "
    ++ (decimal (byte_len json) ++ (codes "\r\nConnection: close\r\n\r\n" ++ json))

unfoldable pub send_metrics_response : Text → Text
send_metrics_response body =
    codes "HTTP/1.1 200 OK\r\nContent-Type: text/plain; version=0.0.4\r\nContent-Length: "
    ++ (decimal (byte_len body) ++ (codes "\r\nConnection: close\r\n\r\n" ++ body))

unfoldable pub send_error_response : ℕ → Text → Text
send_error_response status message =
    codes "HTTP/1.1 "
    ++ (decimal status
        ++ b' '
          ∷ (message
              ++ (codes "\r\nContent-Type: text/plain\r\nContent-Length: "
                  ++ (decimal (byte_len message)
                      ++ (codes "\r\nConnection: close\r\n\r\n" ++ message)))))
