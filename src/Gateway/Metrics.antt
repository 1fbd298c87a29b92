-- ===== src/Gateway/Metrics.antt =====
-- The counters of all nodes: `scrape_node_metrics`, `fetch_metrics` and `render_prometheus` of
-- src/gateway.rs. The probes run side by side; their results are taken in the order of the addresses
-- and then sorted.
pub mod Scrape
use ouroboros_fs.Base.{
  ℕ, zero, suc, ◌+◌, Bool, true, false, not, ◌&&◌, List, [], ◌∷◌, ◌++◌, Option, none, some, ◌==◌,
  if◌then◌else◌, length, is_some,
}
use ouroboros_fs.Text.{Text, codes, eq_text, trim_eol, strip_prefix}
use ouroboros_fs.Text.Pieces.{split_once}
use ouroboros_fs.Text.Decimal.{decimal, parse_uint, max_u64}
use ouroboros_fs.Text.Utf8.{read_until_newline, from_utf8}
use ouroboros_fs.Map.{Map, insert, keys}
use ouroboros_fs.Map.Sort.{sort_keys, text_leb}
use ouroboros_fs.Map.Codec.{at}
use ouroboros_fs.Node.Address.{port_str}
use ouroboros_fs.Protocol.Command.{node_metrics}
use ouroboros_fs.Gateway.Ring.{Gateway, Nodes, Contact, asks, command_bytes, joined}

abbrev pub Samples : Type 0
Samples = List (Text × ℕ)

-- `<key>=<value>`; another line is passed over.
sample_value : Text → Option ℕ → Samples
sample_value k none = []
sample_value k (some v) = (k, v) ∷ []

sample : Option (Text × Text) → Samples
unfolding sample_value
sample none = []
sample (some (k, v)) = sample_value k (parse_uint max_u64 v)

samples_before : Samples → Option Samples → Option Samples
samples_before s none = none
samples_before s (some more) = some (s ++ more)

metric_text : Option Samples → Option Text → Option Samples
unfolding sample samples_before
metric_text rest none = none
metric_text rest (some line) =
    let trimmed = trim_eol line in
    if eq_text trimmed (codes "OK")
    then some []
    else samples_before (sample (split_once b'=' trimmed)) rest

metric_line : (List ℕ → Option Samples) → List ℕ × List ℕ → Option Samples
unfolding metric_text
metric_line next ([], reader) = some []
metric_line next (b ∷ line, reader) = metric_text (next reader) (from_utf8 (b ∷ line))

-- Each line takes a byte at least.
unfoldable pub read_metrics : ℕ → List ℕ → Option Samples
unfolding metric_line
read_metrics zero reader = some []
read_metrics (suc fuel) reader = metric_line (read_metrics fuel) (read_until_newline reader)

unfoldable pub scraped : List ℕ → Option Samples
scraped bytes = read_metrics (length bytes + 1) bytes

unfoldable pub scrape_node_metrics : Nodes → Text → Option Samples
scrape_node_metrics nodes addr =
    if nodes.connects addr && nodes.prompt addr
    then scraped (joined (nodes.answers addr (command_bytes node_metrics [])))
    else none

-- A node that does not answer is left out.
keep_node : Text → Option Samples → List (Text × Samples) → List (Text × Samples)
keep_node port none rest = rest
keep_node port (some s) rest = (port, s) ∷ rest

scrape_all : Nodes → List Text → List (Text × Samples)
unfolding keep_node
scrape_all nodes [] = []
scrape_all nodes (addr ∷ addrs) =
    keep_node (port_str addr) (scrape_node_metrics nodes addr) (scrape_all nodes addrs)

-- `sort_by` on the ports keeps the order of equal ones.
sort_in : Text × Samples → List (Text × Samples) → List (Text × Samples)
sort_in e [] = e ∷ []
sort_in e (f ∷ es) =
    let rest = sort_in e es in if text_leb (e.0) (f.0) then e ∷ (f ∷ es) else f ∷ rest

sort_nodes : List (Text × Samples) → List (Text × Samples)
unfolding sort_in
sort_nodes [] = []
sort_nodes (e ∷ es) = sort_in e (sort_nodes es)

unfoldable pub scrapes : Gateway → Nodes → List Text → List Contact
scrapes g nodes [] = []
scrapes g nodes (addr ∷ addrs) =
    let rest = scrapes g nodes addrs in
    if nodes.connects addr then asks g addr (command_bytes node_metrics []) ∷ rest else rest

unfoldable pub fetch_metrics : Gateway → Nodes → List (Text × Samples) × List Contact
unfolding scrape_all sort_nodes
fetch_metrics g nodes = (sort_nodes (scrape_all nodes g.node_addrs), scrapes g nodes g.node_addrs)

-- `by_metric`: for each name but `port`, the samples of the nodes that have it.
group_node : Text → Map Samples → Samples → Map Samples
group_node port m [] = m
group_node port m ((k, v) ∷ kvs) =
    group_node port
      (if eq_text k (codes "port") then m else insert m k (at m [] k ++ (port, v) ∷ [])) kvs

unfoldable pub by_metric : Map Samples → List (Text × Samples) → Map Samples
unfolding group_node
by_metric m [] = m
by_metric m ((port, kvs) ∷ nodes) = by_metric (group_node port m kvs) nodes

sample_lines : Text → Samples → Text
sample_lines metric_name [] = []
sample_lines metric_name ((port, v) ∷ samples) =
    metric_name
    ++ (codes "{node=\""
        ++ (port ++ (codes "\"} " ++ (decimal v ++ b'\n' ∷ sample_lines metric_name samples))))

-- `ends_with("_total")`
ends_with_total : Text → Bool
ends_with_total [] = false
ends_with_total (c ∷ s) =
    let rest = ends_with_total s in if eq_text (c ∷ s) (codes "_total") then true else rest

metric_block : Text → Samples → Text
unfolding sample_lines ends_with_total
metric_block name samples =
    let metric_name = codes "ouroboros_" ++ name in
    codes "# HELP "
    ++ (metric_name
        ++ (codes " OuroborosFS "
            ++ (name
                ++ (codes "\n# TYPE "
                    ++ (metric_name
                        ++ b' '
                          ∷ ((if ends_with_total name then codes "counter" else codes "gauge")
                              ++ b'\n' ∷ sample_lines metric_name samples))))))

metric_blocks : Map Samples → List Text → Text
unfolding metric_block
metric_blocks m [] = []
metric_blocks m (name ∷ names) = metric_block name (at m [] name) ++ metric_blocks m names

unfoldable pub render_prometheus : List (Text × Samples) → Text
unfolding metric_blocks
render_prometheus per_node = let m = by_metric [] per_node in metric_blocks m (sort_keys (keys m))
