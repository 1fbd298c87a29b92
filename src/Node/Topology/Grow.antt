-- ===== src/Node/Topology/Grow.antt =====
-- `set_topology_from_history` of src/node.rs on what `append_edge` writes.
use ouroboros_fs.Base.{◌≡◌, refl, sym, ap, ◌∙◌, List, [], ◌∷◌, ◌++◌, if◌then◌else◌}
use ouroboros_fs.Text.{Text, is_empty}
use ouroboros_fs.Text.Pieces.{split, split-Lacks, split-cut}
use ouroboros_fs.Map.{Map, insert}
use ouroboros_fs.Map.Codec.{read_pieces}
use ouroboros_fs.Node.Address.{port_str}
use ouroboros_fs.Node.Topology.{edge, read_edge, parse_history, append_edge}
use ouroboros_fs.Node.Topology.RoundTrip.{IsEnd, read_edge-edge, edge-Lacks}

read_pieces-append :
    (m : Map Text) (ps qs : List Text)
    → read_pieces read_edge m (ps ++ qs) ≡ read_pieces read_edge (read_pieces read_edge m ps) qs
read_pieces-append m [] qs = refl
read_pieces-append m (p ∷ ps) qs = read_pieces-append (read_edge m p) ps qs

pub nothing_read : parse_history [] ≡ []
unfolding parse_history split read_edge
nothing_read = refl

parse-edge :
    (h from to : Text)
    → IsEnd from
    → IsEnd to
    → parse_history (if is_empty h then edge from to else h ++ b';' ∷ edge from to)
      ≡ insert (parse_history h) from to
unfolding parse_history
parse-edge [] from to hf ht =
    rw (split-Lacks b';' (edge from to) (edge-Lacks from to hf ht))
      (read_edge-edge [] from to hf.no_dash ∙ ap (λ m. insert m from to) (sym nothing_read))
parse-edge (c ∷ h) from to hf ht =
    rw
      (
        split-cut b';' (c ∷ h) (edge from to),
        split-Lacks b';' (edge from to) (edge-Lacks from to hf ht),
        read_pieces-append [] (split b';' (c ∷ h)) (edge from to ∷ []),
      )
      (read_edge-edge (parse_history (c ∷ h)) from to hf.no_dash)

-- An edge appended to a history is read as one more entry of the map, if the two ports hold no `-`
-- and no `;`.
pub parse_history-append_edge :
    (h a b : Text)
    → IsEnd (port_str a)
    → IsEnd (port_str b)
    → parse_history (append_edge h a b) ≡ insert (parse_history h) (port_str a) (port_str b)
unfolding append_edge
parse_history-append_edge h a b ha hb = parse-edge h (port_str a) (port_str b) ha hb
