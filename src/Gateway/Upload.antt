-- ===== src/Gateway/Upload.antt =====
-- The upload of a file: `handle_file_upload` of src/gateway.rs. `char::is_alphanumeric`, a table of all
-- Unicode letters and digits, is a parameter.
pub mod Name
use ouroboros_fs.Base.{
  ℕ, zero, suc, ◌+◌, ◌*◌, Bool, true, false, not, ◌&&◌, List, [], ◌∷◌, ◌++◌, Option, none, some,
  ◌==◌, ltb, if◌then◌else◌, length, take, is_some, Result, ok, err,
}
use ouroboros_fs.Text.{Text, codes, strip_prefix}
use ouroboros_fs.Text.Pieces.{replace}
use ouroboros_fs.Text.Decimal.{decimal, parse_uint, max_u64}
use ouroboros_fs.Text.Utf8.{read_until_newline, from_utf8}
use ouroboros_fs.Map.{Map, get}
use ouroboros_fs.Protocol.Command.{file_push}
use ouroboros_fs.Gateway.Ring.{
  Gateway, Nodes, Contact, asks, command_bytes, connect_to_ring, unreachable, joined,
}

-- 50 GiB.
abbrev pub max_reasonable_bytes : ℕ
max_reasonable_bytes = 50 * 1024 * 1024 * 1024

abbrev pub oversized_err_tag : Text
oversized_err_tag = codes "oversized:"

-- Lines are read until one begins with OK. Each takes a byte at least.
ok_text : Result Bool Text → Option Text → Result Bool Text
ok_text rest none = err (codes "stream did not contain valid UTF-8")
ok_text rest (some line) = if is_some (strip_prefix (codes "OK") line) then ok true else rest

ok_line : (List ℕ → Result Bool Text) → List ℕ × List ℕ → Result Bool Text
unfolding ok_text
ok_line next ([], reader) = ok false
ok_line next (b ∷ line, reader) = ok_text (next reader) (from_utf8 (b ∷ line))

unfoldable pub find_ok : ℕ → List ℕ → Result Bool Text
unfolding ok_line
find_ok zero reader = ok false
find_ok (suc fuel) reader = ok_line (find_ok fuel) (read_until_newline reader)

stored_by : Result Bool Text → Result (Unit {0}) Text
stored_by (ok true) = ok tt
stored_by (ok false) = err (codes "Node failed to store file: did not receive OK")
stored_by (err e) = err e

declared : Option Text → ℕ
declared none = 0
declared (some v) = elim (parse_uint max_u64 v) [ none ↦ 0 | some n ↦ n ]

module _ (is_alphanumeric : ℕ → Bool) where
  -- Every other character becomes an underscore.
  unfoldable pub sanitized : Text → Text
  sanitized raw =
      replace
        (λ c. not (is_alphanumeric c) && not (c == b'.') && not (c == b'_') && not (c == b'-')) b'_'
        raw

  -- The file goes to the first node that can be reached.
  push_to :
      Gateway → Nodes → ℕ → Text → List ℕ → Option Text → Result (Unit {0}) Text × List Contact
  unfolding stored_by
  push_to g nodes size filename body none = (err unreachable, [])
  push_to g nodes size filename body (some addr) =
      let request = command_bytes (file_push size filename) (take size body) in
      let answer = joined (nodes.answers addr request) in
      (stored_by (find_ok (length answer + 1) answer), asks g addr request ∷ [])

  sized_upload : Gateway → Nodes → ℕ → List ℕ → Option Text → Result (Unit {0}) Text × List Contact
  unfolding push_to
  sized_upload g nodes size body none = (err (codes "Missing X-Filename header"), [])
  sized_upload g nodes size body (some raw) =
      if size == 0
      then (err (codes "Missing Content-Length header"), [])
      else if ltb max_reasonable_bytes size
      then (
        err (
            oversized_err_tag
            ++ (codes "Content-Length "
                ++ (decimal size
                    ++ (codes " exceeds " ++ (decimal max_reasonable_bytes ++ codes " bytes"))))),
        [],
      )
      else push_to g nodes size (sanitized raw) body (connect_to_ring nodes g.node_addrs)

  unfoldable pub handle_file_upload :
      Gateway → Nodes → Map Text → List ℕ → Result (Unit {0}) Text × List Contact
  unfolding declared sized_upload
  handle_file_upload g nodes fields body =
      sized_upload g nodes (declared (get fields (codes "content-length"))) body
        (get fields (codes "x-filename"))
