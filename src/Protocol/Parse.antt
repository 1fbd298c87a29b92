-- ===== src/Protocol/Parse.antt =====
-- `parse_line` of src/protocol.rs and the parser of each namespace. A parser is the chain of its
-- tests: `strip_prefix` of a verb with parameters, or a verb alone in any case of letters.
use ouroboros_fs.Base.{
  ℕ, ◌||◌, List, ◌++◌, none, some, if◌then◌else◌, Result, ok, err, ◌>>=◌, ◌>>◌, guard, ok_or,
}
use ouroboros_fs.Text.{
  Text, codes, trim, trim_eol, is_empty, to_ascii_uppercase, eq_ignore_ascii_case, strip_prefix,
  eq_text,
}
use ouroboros_fs.Text.Pieces.{splitn, item}
use ouroboros_fs.Text.Decimal.{parse_uint, max_u16, max_u32, max_u64}
use ouroboros_fs.Protocol.Filename.{validate_filename}
use ouroboros_fs.Protocol.Command.{
  Command, node_next, node_status, node_ping, node_metrics, node_heal, node_heal_hop,
  node_heal_done, ring_forward, topology_walk, topology_hop, topology_done, topology_set,
  netmap_discover, netmap_hop, netmap_done, netmap_set, netmap_get, file_push, file_pull, file_list,
  file_tags_set, file_push_chunk, file_get_chunk, file_backup_push, file_get_backup_chunk,
  file_content_push,
}

abbrev pub Parsed : Type 0
Parsed = Result Command Text

-- `if let Some(rest) = rest.strip_prefix(verb) { return … }`, else the later tests.
abbrev on_prefix : Text → Text → (Text → Parsed) → Parsed → Parsed
on_prefix verb rest found later = elim (strip_prefix verb rest) [ some r ↦ found r | none ↦ later ]

-- `validate_filename(&name).map_err(|e| format!("{verb}: {e}"))?`
abbrev named_error : Text → Result Text Text → Result Text Text
named_error verb (ok n) = ok n
named_error verb (err e) = err (verb ++ (codes ": " ++ e))

abbrev checked : Text → Text → Result Text Text
checked verb name = named_error verb (validate_filename name)

heal_hop : List Text → Parsed
heal_hop parts = do
  let token = trim (item parts 0)
  let start_addr = trim (item parts 1)
  guard (is_empty token || is_empty start_addr) (codes "malformed NODE HEAL-HOP")
  ok (node_heal_hop token start_addr)

unfoldable pub parse_node_cmd : Text → Parsed
unfolding heal_hop
parse_node_cmd rest =
    on_prefix (codes "NEXT ") rest
      (λ r.
        guard (is_empty (trim r)) (codes "missing address for NODE NEXT")
        >> ok (node_next (trim r)))
      (if eq_ignore_ascii_case rest (codes "STATUS")
        then ok node_status
        else if eq_ignore_ascii_case rest (codes "PING")
        then ok node_ping
        else if eq_ignore_ascii_case rest (codes "METRICS")
        then ok node_metrics
        else if eq_ignore_ascii_case rest (codes "HEAL")
        then ok node_heal
        else on_prefix (codes "HEAL-HOP ") rest (λ r. heal_hop (splitn 2 b' ' r))
            (on_prefix (codes "HEAL-DONE ") rest
              (λ r.
                guard (is_empty (trim r)) (codes "malformed NODE HEAL-DONE")
                >> ok (node_heal_done (trim r)))
              (err (codes "unknown NODE command"))))

forward : List Text → Parsed
forward parts = do
  ttl ← ok_or (parse_uint max_u32 (trim (item parts 0))) (codes "invalid ttl for RING FORWARD")
  ok (ring_forward ttl (item parts 1))

unfoldable pub parse_ring_cmd : Text → Parsed
unfolding forward
parse_ring_cmd rest =
    on_prefix (codes "FORWARD ") rest (λ r. forward (splitn 2 b' ' r))
      (err (codes "unknown RING command"))

-- HOP of TOPOLOGY and of NETMAP differ in the message and in the constructor.
hop : Text → (Text → Text → Text → Command) → List Text → Parsed
hop malformed make parts = do
  let token = trim (item parts 0)
  let start_addr = trim (item parts 1)
  guard (is_empty token || is_empty start_addr) malformed
  ok (make token start_addr (item parts 2))

done : Text → (Text → Text → Command) → List Text → Parsed
done malformed make parts = do
  let token = trim (item parts 0)
  guard (is_empty token) malformed
  ok (make token (item parts 1))

unfoldable pub parse_topology_cmd : Text → Parsed
unfolding hop done
parse_topology_cmd rest =
    if eq_ignore_ascii_case rest (codes "WALK")
    then ok topology_walk
    else on_prefix (codes "HOP ") rest
        (λ r. hop (codes "malformed TOPOLOGY HOP") topology_hop (splitn 3 b' ' r))
        (on_prefix (codes "DONE ") rest
          (λ r. done (codes "malformed TOPOLOGY DONE") topology_done (splitn 2 b' ' r))
          (on_prefix (codes "SET ") rest (λ r. ok (topology_set r))
            (err (codes "unknown TOPOLOGY command"))))

unfoldable pub parse_netmap_cmd : Text → Parsed
unfolding hop done
parse_netmap_cmd rest =
    if eq_ignore_ascii_case rest (codes "DISCOVER")
    then ok netmap_discover
    else on_prefix (codes "HOP ") rest
        (λ r. hop (codes "malformed NETMAP HOP") netmap_hop (splitn 3 b' ' r))
        (on_prefix (codes "DONE ") rest
          (λ r. done (codes "malformed NETMAP DONE") netmap_done (splitn 2 b' ' r))
          (on_prefix (codes "SET ") rest (λ r. ok (netmap_set (trim r)))
            (if eq_ignore_ascii_case rest (codes "GET")
              then ok netmap_get
              else err (codes "unknown NETMAP command"))))

push : List Text → Parsed
push parts = do
  let name = trim (item parts 1)
  guard (is_empty name) (codes "missing file name for FILE PUSH")
  checked (codes "FILE PUSH") name
  size ← ok_or (parse_uint max_u64 (trim (item parts 0))) (codes "invalid size for FILE PUSH")
  ok (file_push size name)

-- PULL, GET-CHUNK and GET-BACKUP-CHUNK take one name.
one_name : Text → (Text → Command) → Text → Parsed
one_name verb make r = do
  guard (is_empty (trim r)) (codes "missing file name for " ++ verb)
  checked verb (trim r)
  ok (make (trim r))

-- BACKUP-PUSH and CONTENT-PUSH take a name and a size.
name_size : Text → (Text → ℕ → Command) → List Text → Parsed
name_size verb make parts = do
  let name = trim (item parts 0)
  guard (is_empty name) (codes "missing file name for " ++ verb)
  checked verb name
  size ← ok_or (parse_uint max_u64 (trim (item parts 1))) (codes "invalid size for " ++ verb)
  ok (make name size)

-- A number of the PUSH-CHUNK header.
number : ℕ → Text → Text → Result ℕ Text
number top what s =
    ok_or (parse_uint top (trim s)) (codes "invalid " ++ (what ++ codes " for FILE PUSH-CHUNK"))

push_chunk : List Text → Parsed
unfolding number
push_chunk parts = do
  let name = trim (item parts 0)
  guard (is_empty name) (codes "missing name for FILE PUSH-CHUNK")
  checked (codes "FILE PUSH-CHUNK") name
  chunk_size ← number max_u64 (codes "chunk_size") (item parts 1)
  file_size ← number max_u64 (codes "file_size") (item parts 2)
  total ← number max_u32 (codes "parts") (item parts 3)
  index ← number max_u32 (codes "index") (item parts 4)
  start_port ← number max_u16 (codes "start_port") (item parts 5)
  ok (file_push_chunk name chunk_size file_size total index start_port)

unfoldable pub parse_file_cmd : Text → Parsed
unfolding push one_name name_size push_chunk
parse_file_cmd rest =
    on_prefix (codes "PUSH ") rest (λ r. push (splitn 2 b' ' r))
      (on_prefix (codes "PULL ") rest (one_name (codes "FILE PULL") file_pull) (
        if eq_ignore_ascii_case rest (codes "LIST")
        then ok file_list
        else on_prefix (codes "TAGS-SET ") rest (λ r. ok (file_tags_set r))
            (on_prefix (codes "GET-CHUNK ") rest (one_name (codes "FILE GET-CHUNK") file_get_chunk)
              (on_prefix (codes "BACKUP-PUSH ") rest
                (λ r. name_size (codes "FILE BACKUP-PUSH") file_backup_push (splitn 2 b' ' r))
                (on_prefix (codes "CONTENT-PUSH ") rest
                  (λ r. name_size (codes "FILE CONTENT-PUSH") file_content_push (splitn 2 b' ' r))
                  (on_prefix (codes "GET-BACKUP-CHUNK ") rest
                    (one_name (codes "FILE GET-BACKUP-CHUNK") file_get_backup_chunk)
                    (on_prefix (codes "PUSH-CHUNK ") rest (λ r. push_chunk (splitn 6 b' ' r))
                      (err (codes "unknown FILE command")))))))))

-- `match noun.as_str()`.
unfoldable pub dispatch : Text → Text → Parsed
dispatch noun rest =
    if eq_text noun (codes "NODE")
    then parse_node_cmd rest
    else if eq_text noun (codes "RING")
    then parse_ring_cmd rest
    else if eq_text noun (codes "TOPOLOGY")
    then parse_topology_cmd rest
    else if eq_text noun (codes "NETMAP")
    then parse_netmap_cmd rest
    else if eq_text noun (codes "FILE")
    then parse_file_cmd rest
    else err (codes "unknown command namespace: '" ++ (noun ++ codes "'"))

unfoldable pub parse_line : Text → Parsed
parse_line line =
    let parts = splitn 2 b' ' (trim_eol line) in
    dispatch (to_ascii_uppercase (item parts 0)) (item parts 1)
