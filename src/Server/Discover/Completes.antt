-- ===== src/Server/Discover/Completes.antt =====
-- A whole discovery round, from `handle_netmap_discover` to `handle_netmap_done` of src/server.rs.
use mathlib.Core.Path.{subst}
use ouroboros_fs.Base.{◌≡◌, refl, sym, ap, ◌∙◌, true, List, [], ◌∷◌, ◌++◌, some, All}
use ouroboros_fs.Text.{Text, codes, eq_text_refl}
use ouroboros_fs.Text.Pieces.{split-Lacks}
use ouroboros_fs.Map.{get, insert}
use ouroboros_fs.Map.Codec.{at}
use ouroboros_fs.Node.{Node, get_next}
use ouroboros_fs.Node.Status.{alive}
use ouroboros_fs.Node.Address.{port_str}
use ouroboros_fs.Node.Netmap.{parse_entries, entry_text, set_network_nodes_from_entries}
use ouroboros_fs.Node.Netmap.RoundTrip.{IsPortKey, entry_text-IsEntry}
use ouroboros_fs.Node.Walks.{make_invest_token}
use ouroboros_fs.Node.Send.{Net, Sent, message, forward_netmap_hop}
use ouroboros_fs.Protocol.Command.{netmap_hop, netmap_done}
use ouroboros_fs.Server.Walk.Ring.{Cluster}
use ouroboros_fs.Server.Discover.{handle_netmap_discover, handle_netmap_done}
use ouroboros_fs.Server.Discover.Ring.{
  NetmapHops, Round, AreKeys, gathered, rounds_line, alive_stays, everyone_alive,
}

-- A round that came back to its start and listed the ring.
pub record Discovered (net : Net) (cluster : Cluster) (n : Node) (ns : List Node) : Type 0 where
  pub token : Text
  pub first : Sent
  pub last : Sent
  pub entries : Text
  pub starts : (handle_netmap_discover net n).sent ≡ first ∷ []
  pub passes : NetmapHops net cluster first last
  pub returns : last.to ≡ n.port
  pub brings : last.command ≡ netmap_done token entries
  pub learns :
      All
        (λ m.
          get (handle_netmap_done net n token entries).node.network_nodes (port_str m.port)
          ≡ some alive)
        (n ∷ ns)

-- The entries that a round begins with.
first_entries : Text → Text
first_entries port = port ++ codes "=Alive"

own_entry : (k : Text) → entry_text ((k, alive) ∷ []) k ≡ first_entries k
unfolding entry_text get first_entries
own_entry k = rw (eq_text_refl k)

at_own : (k : Text) → at ((k, alive) ∷ []) alive k ≡ alive
unfolding get
at_own k = rw (eq_text_refl k)

first_read : (k : Text) → IsPortKey k → parse_entries (first_entries k) ≡ (k, alive) ∷ []
unfolding parse_entries insert
first_read k h =
    let entry = entry_text-IsEntry ((k, alive) ∷ []) k h in
    ap parse_entries (sym (own_entry k))
    ∙ rw (split-Lacks b',' (entry_text ((k, alive) ∷ []) k) entry.apart)
        (entry.inserts [] ∙ ap (λ v. (k, v) ∷ []) (at_own k))

discover_starts :
    (net : Net) (n m : Node)
    → n.next_port ≡ some m.port
    → net.up m.port ≡ true
    → (handle_netmap_discover net n).sent
      ≡ message
          (make_invest_token n).0
          m.port
          (netmap_hop (make_invest_token n).1 n.port (first_entries (port_str n.port)))
        ∷ []
unfolding handle_netmap_discover get_next forward_netmap_hop make_invest_token first_entries
discover_starts net n m hn hu = rw (hn, hu)

done_learns :
    (net : Net) (n : Node) (t entries : Text)
    → (handle_netmap_done net n t entries).node.network_nodes ≡ parse_entries entries
unfolding handle_netmap_done set_network_nodes_from_entries
done_learns net n t entries = refl

-- The entries of a round are read with the start alive, and can be written again.
first_alive : (k : Text) → IsPortKey k → get (parse_entries (first_entries k)) k ≡ some alive
unfolding get
first_alive k h = rw (first_read k h, eq_text_refl k)

first-AreKeys : (k : Text) → IsPortKey k → AreKeys (first_entries k)
first-AreKeys k h = rw (first_read k h) (h, tt)

-- In a ring of two nodes or more, each of which has the next as its next hop, takes a connection
-- and has a port that can be a key, and where the nodes after the start are known by their
-- addresses and have other ports than it, a discovery round comes back to its start, and the start
-- then counts every node of the ring as alive.
pub netmap_discover-Discovered :
    (net : Net) (cluster : Cluster) (n m : Node) (ns : List Node)
    → n.next_port ≡ some m.port
    → net.up m.port ≡ true
    → IsPortKey (port_str n.port)
    → Round net cluster n.port (m ∷ ns)
    → Discovered net cluster n (m ∷ ns)
netmap_discover-Discovered net cluster n m ns hn hu hk round =
    let t = (make_invest_token n).1 in
    let e = first_entries (port_str n.port) in
    let first = message (make_invest_token n).0 m.port (netmap_hop t n.port e) in
    let (last, (path, bears)) =
      rounds_line net cluster n.port m ns t e first round
        (record { goes_to = refl; carries = refl }) in
    let entries = gathered e (m ∷ ns) in
    let keys_written = first-AreKeys (port_str n.port) hk in
    record {
      token = t;
      first = first;
      last = last;
      entries = entries;
      starts = discover_starts net n m hn hu;
      passes = path;
      returns = bears.goes_to;
      brings = bears.carries;
      learns =
          subst (λ netmap. All (λ o. get netmap (port_str o.port) ≡ some alive) (n ∷ m ∷ ns))
            (sym (done_learns net n t entries))
            (
              alive_stays net cluster n.port (m ∷ ns) e (port_str n.port) round keys_written
                  (first_alive (port_str n.port) hk),
              everyone_alive net cluster n.port (m ∷ ns) e round keys_written,
            );
    }
