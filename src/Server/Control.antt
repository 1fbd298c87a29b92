-- ===== src/Server/Control.antt =====
-- The handlers of src/server.rs that answer from the node alone: NODE NEXT, STATUS, PING, METRICS and
-- HEAL-DONE, RING FORWARD, FILE LIST, FILE TAGS-SET and the answer to a line that does not parse.
pub mod Forward
use ouroboros_fs.Base.{
  ℕ, zero, suc, Bool, List, [], ◌∷◌, ◌++◌, if◌then◌else◌, ◌==◌, ◌||◌, any, unwrap_or, Result, ok,
  err,
}
use ouroboros_fs.Text.{Text, codes}
use ouroboros_fs.Text.Decimal.{decimal}
use ouroboros_fs.Map.{Map, keys}
use ouroboros_fs.Map.Sort.{sort_keys}
use ouroboros_fs.Map.Codec.{at}
use ouroboros_fs.Node.{Node, FileTag, set_next, get_next}
use ouroboros_fs.Node.Address.{port_str}
use ouroboros_fs.Node.Netmap.{alive_dead_counts}
use ouroboros_fs.Node.Tags.{set_file_tags_from_entries, no_tag}
use ouroboros_fs.Node.Walks.{finish_heal_walk}
use ouroboros_fs.Node.Send.{Net, Sent, forward_ring_forward}
use ouroboros_fs.Server.Outcome.{Outcome, replies, acknowledged}

unfoldable pub handle_node_next : Node → Text → Outcome
handle_node_next n addr = replies (set_next n addr) (codes "OK next=" ++ (addr ++ codes "\n"))

unfoldable pub handle_node_status : Node → Outcome
handle_node_status n =
    let next = unwrap_or (get_next n) (codes "<unset>") in
    replies n (codes "PORT " ++ (n.port ++ (codes "\nNEXT " ++ (next ++ codes "\nOK\n"))))

unfoldable pub handle_node_ping : Node → Outcome
handle_node_ping n = replies n (codes "PONG\n")

-- `format!("<key>={}", value)` and the newline.
abbrev pub metric : Text → Text → Text
metric key value = key ++ b'=' ∷ (value ++ codes "\n")

unfoldable pub handle_node_metrics : Node → Outcome
handle_node_metrics n =
    let counts = alive_dead_counts n in
    replies n (
      metric (codes "port") (port_str n.port)
      ++ metric (codes "pushes_total") (decimal n.pushes_total)
      ++ metric (codes "pulls_total") (decimal n.pulls_total)
      ++ metric (codes "chunk_bytes_written_total") (decimal n.chunk_bytes_written_total)
      ++ metric (codes "chunk_bytes_read_total") (decimal n.chunk_bytes_read_total)
      ++ metric (codes "netmap_broadcasts_total") (decimal n.netmap_broadcasts)
      ++ metric (codes "alive_nodes") (decimal (counts.0))
      ++ metric (codes "dead_nodes") (decimal (counts.1))
      ++ codes "OK\n")

-- The waiters of a finished walk.
abbrev pub woken_by : Text → Bool → List Text
woken_by token b = if b then token ∷ [] else []

unfoldable pub handle_node_heal_done : Node → Text → Outcome
handle_node_heal_done n token =
    let done = finish_heal_walk n token in
    record { node = done.0; reply = codes "OK\n"; sent = []; woken = woken_by token done.1 }

-- A failed call is logged only.
abbrev pub sent_by : Result (List Sent) Text → List Sent
sent_by (ok sent) = sent
sent_by (err reason) = []

unfoldable pub handle_ring_forward : Net → Node → ℕ → Text → Outcome
handle_ring_forward net n zero msg = acknowledged n []
handle_ring_forward net n (suc ttl) msg =
    acknowledged n (sent_by (forward_ring_forward net n ttl msg))

unfoldable pub handle_file_tags_set : Node → Text → Outcome
handle_file_tags_set n entries = acknowledged (set_file_tags_from_entries n entries) []

-- A name with a comma, a quote or a line break is put in quotes, its quotes doubled.
unfoldable pub needs_quotes : Text → Bool
needs_quotes s = any (λ c. c == b',' || c == b'"' || c == b'\n' || c == b'\r') s

unfoldable pub double_quotes : Text → Text
double_quotes [] = []
double_quotes (c ∷ s) =
    let rest = double_quotes s in if c == b'"' then b'"' ∷ (c ∷ rest) else c ∷ rest

unfoldable pub csv_escape : Text → Text
csv_escape s = if needs_quotes s then b'"' ∷ (double_quotes s ++ b'"' ∷ []) else s

unfoldable pub csv_row : Text → FileTag → Text
csv_row name t =
    csv_escape name ++ b',' ∷ (decimal t.start ++ b',' ∷ (decimal t.size ++ codes "\n"))

unfoldable pub csv_rows : Map FileTag → List Text → Text
csv_rows m [] = []
csv_rows m (k ∷ ks) = csv_row k (at m no_tag k) ++ csv_rows m ks

unfoldable pub handle_file_list_csv : Node → Outcome
unfolding csv_rows
handle_file_list_csv n =
    replies n (codes "name,start,size\n" ++ csv_rows n.file_tags (sort_keys (keys n.file_tags)))

unfoldable pub handle_error : Node → Text → Outcome
handle_error n e = replies n (codes "ERR " ++ (e ++ codes "\n"))
