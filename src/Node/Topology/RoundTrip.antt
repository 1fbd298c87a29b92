-- ===== src/Node/Topology/RoundTrip.antt =====
-- `set_topology_from_history` of src/node.rs on what `get_topology_history` writes.
use ouroboros_fs.Base.{◌≡◌, refl, ap, ◌∙◌, false, List, [], ◌∷◌, All, All-append, All-mono, ◌==◌}
use ouroboros_fs.Text.{Text, is_empty, Lacks}
use ouroboros_fs.Text.Pieces.{split_once_str-lem}
use ouroboros_fs.Map.{Map, get, insert, keys}
use ouroboros_fs.Map.Sort.{sort_keys, All-sort_keys}
use ouroboros_fs.Map.Codec.{IsEntry, at, get-table, read_pieces-join}
use ouroboros_fs.Node.Topology.{edge, read_edge, parse_history, edge_text, topology_history}

-- An end of an edge: no `-` and no `;`.
pub record IsEnd (k : Text) : Type 0 where
  pub no_dash : Lacks b'-' k
  pub no_semicolon : Lacks b';' k

edge-present : (a b : Text) → is_empty (edge a b) ≡ false
edge-present [] b = refl
edge-present (c ∷ a) b = refl

pub read_edge-edge :
    (m : Map Text) (a b : Text) → Lacks b'-' a → read_edge m (edge a b) ≡ insert m a b
unfolding read_edge
read_edge-edge m a b h = rw (edge-present a b, split_once_str-lem b'-' (b'>' ∷ []) a b h)

pub edge-Lacks : (a b : Text) → IsEnd a → IsEnd b → Lacks b';' (edge a b)
edge-Lacks a b ha hb =
    All-append (λ c. (c == b';') ≡ false) a _ ha.no_semicolon (refl, (refl, hb.no_semicolon))

edge_text-IsEntry :
    (m : Map Text) (k : Text)
    → IsEnd k
    → IsEnd (at m [] k)
    → IsEntry b';' (edge_text m) read_edge (at m []) k
unfolding edge_text
edge_text-IsEntry m k h hv = record {
  apart = edge-Lacks k (at m [] k) h hv;
  inserts = λ n. read_edge-edge n k (at m [] k) h.no_dash;
}

abbrev AreEdges : Map Text → List Text → Type 0
AreEdges m = All (λ k. IsEnd k × IsEnd (at m [] k))

-- A topology map comes back from its text with the same next hop at every port, if no port holds
-- `-` or `;`.
pub parse-topology_history :
    (m : Map Text)
    → All (λ k. IsEnd k × IsEnd (at m [] k)) (keys m)
    → (j : Text) → get (parse_history (topology_history m)) j ≡ get m j
unfolding parse_history topology_history
parse-topology_history m h j =
    let ks = sort_keys (keys m) in
    let entries =
      All-mono ks (λ k e. edge_text-IsEntry m k e.0 e.1)
        (All-sort_keys (λ k. IsEnd k × IsEnd (at m [] k)) (keys m) h) in
    ap (λ n. get n j)
      (read_pieces-join b';' (edge_text m) read_edge (at m []) [] ks (unfold read_edge in refl)
        entries)
    ∙ get-table m [] j
