-- ===== src/Server/Discover/Ring.antt =====
-- A NETMAP DISCOVER round of a ring: each message is delivered to the node whose address it bears, and
-- `handle_netmap_hop` of src/server.rs sends the next.
use mathlib.Core.Path.{subst}
use ouroboros_fs.Base.{
  ◌≡◌, refl, sym, ap, ◌∙◌, Bool, true, false, List, [], ◌∷◌, Option, some, is_some, if◌then◌else◌,
  All, Bool-cases, inl, inr, arith,
}
use ouroboros_fs.Text.{Text, eq_text, eq_text_refl, eq_text_sound}
use ouroboros_fs.Map.{get, keys, contains, contains-keys}
use ouroboros_fs.Node.{Node, get_next}
use ouroboros_fs.Node.Status.{NodeStatus, alive}
use ouroboros_fs.Node.Address.{port_str}
use ouroboros_fs.Node.Netmap.{parse_entries, entries_with_self}
use ouroboros_fs.Node.Netmap.RoundTrip.{IsPortKey, parse-entries_with_self}
use ouroboros_fs.Node.Send.{Net, Sent, message, forward_netmap_hop, send_netmap_done}
use ouroboros_fs.Protocol.Command.{netmap_hop, netmap_done}
use ouroboros_fs.Server.Walk.Ring.{Cluster, next_of, Bears}
use ouroboros_fs.Server.Discover.{netmap_hop_sends, handle_netmap_hop}

-- A message and the one that stands at the end of its hops.
pub data NetmapHops (net : Net) (cluster : Cluster) : Sent → Sent → Type 0 where
  arrived : {m : Sent} → NetmapHops net cluster m m
  hops :
      {m last : Sent} (n : Node) (t start entries : Text) (next : Sent)
      → m.command ≡ netmap_hop t start entries
      → cluster m.to ≡ some n
      → (handle_netmap_hop net n t start entries).sent ≡ next ∷ []
      → NetmapHops net cluster next last
      → NetmapHops net cluster m last

-- A node of the ring after the start, with the nodes between it and the start.
pub record Follows (net : Net) (cluster : Cluster) (start : Text) (n : Node) (ns : List Node)
    : Type 0 where
  pub next : n.next_port ≡ some (next_of start ns)
  pub reached : net.up (next_of start ns) ≡ true
  pub known : cluster n.port ≡ some n
  pub apart : eq_text (port_str n.port) (port_str start) ≡ false
  pub key : IsPortKey (port_str n.port)

abbrev pub Round : Net → Cluster → Text → List Node → Type 0
Round net cluster start [] = Unit
Round net cluster start (n ∷ ns) = Follows net cluster start n ns × Round net cluster start ns

-- The entries after the nodes of a round.
abbrev pub gathered : Text → List Node → Text
gathered entries [] = entries
gathered entries (n ∷ ns) = gathered (entries_with_self n entries) ns

module _ (P : Text → Type 0) where
  All-contains : (ks : List Text) (j : Text) → All P ks → contains j ks ≡ true → P j
  All-contains [] j h c = absurd (cc)
  All-contains (k ∷ ks) j (p, h) c = elim (Bool-cases (eq_text k j)) [
    | inl e ↦ subst P (eq_text_sound k j e) p
    | inr e ↦ All-contains ks j h (ground (arith, c, e))
  ]

  contains-All : (ks : List Text) → ((j : Text) → contains j ks ≡ true → P j) → All P ks
  contains-All [] f = tt
  contains-All (k ∷ ks) f =
      (f k (rw (eq_text_refl k)), contains-All ks (λ j c. f j (ground (arith, c))))

abbrev pub AreKeys : Text → Type 0
AreKeys entries = All IsPortKey (keys (parse_entries entries))

-- Keys that can be written stay so when a node adds itself.
entries_with_self-AreKeys :
    (n : Node) (entries : Text)
    → IsPortKey (port_str n.port)
    → AreKeys entries
    → AreKeys (entries_with_self n entries)
entries_with_self-AreKeys n entries hp h =
    let old = parse_entries entries in
    let new = parse_entries (entries_with_self n entries) in
    contains-All IsPortKey (keys new) (λ j c. elim (Bool-cases (eq_text (port_str n.port) j)) [
      | inl e ↦ subst IsPortKey (eq_text_sound (port_str n.port) j e) hp
      | inr e ↦
          let found : get new j ≡ get old j = parse-entries_with_self n entries hp h j ∙ (rw e) in
          All-contains IsPortKey (keys old) j h
            (contains-keys old j ∙ ap is_some (sym found) ∙ sym (contains-keys new j) ∙ c)
    ])

module _ (net : Net) (cluster : Cluster) (start : Text) where
  last_sends :
      (n : Node) (t entries : Text)
      → Follows net cluster start n []
      → (handle_netmap_hop net n t start entries).sent
        ≡ message n start (netmap_done t (entries_with_self n entries)) ∷ []
  unfolding handle_netmap_hop get_next netmap_hop_sends send_netmap_done
  last_sends n t entries f = rw (f.next, eq_text_refl (port_str start), f.reached)

  inner_sends :
      (n m : Node) (t entries : Text)
      → n.next_port ≡ some m.port
      → net.up m.port ≡ true
      → eq_text (port_str m.port) (port_str start) ≡ false
      → (handle_netmap_hop net n t start entries).sent
        ≡ message n m.port (netmap_hop t start (entries_with_self n entries)) ∷ []
  unfolding handle_netmap_hop get_next netmap_hop_sends forward_netmap_hop
  inner_sends n m t entries hn hu ha = rw (hn, ha, hu)

  pub rounds_line :
      (n : Node) (ns : List Node) (t entries : Text) (m : Sent)
      → Round net cluster start (n ∷ ns)
      → Bears n.port (netmap_hop t start entries) m
      → (last : Sent) × (NetmapHops net cluster m last
          × Bears start (netmap_done t (gathered entries (n ∷ ns))) last)
  rounds_line n [] t entries m (f, _) h =
      let next = message n start (netmap_done t (entries_with_self n entries)) in
      (
        next,
        (
          hops n t start entries next h.carries (rw h.goes_to f.known) (last_sends n t entries f)
              arrived,
          record { goes_to = refl; carries = refl },
        ),
      )
  rounds_line n (n' ∷ ns) t entries m (f, round) h =
      let entries' = entries_with_self n entries in
      let next = message n n'.port (netmap_hop t start entries') in
      let (last, (path, bears)) =
        rounds_line n' ns t entries' next round (record { goes_to = refl; carries = refl }) in
      (
        last,
        (
          hops n t start entries next h.carries (rw h.goes_to f.known)
              (inner_sends n n' t entries f.next f.reached round.0.apart) path,
          bears,
        ),
      )

  -- What is alive stays alive in a round, and every node of it is.
  pub alive_stays :
      (ns : List Node) (entries j : Text)
      → Round net cluster start ns
      → AreKeys entries
      → get (parse_entries entries) j ≡ some alive
      → get (parse_entries (gathered entries ns)) j ≡ some alive
  alive_stays [] entries j round h e = e
  alive_stays (n ∷ ns) entries j (f, round) h e =
      alive_stays ns (entries_with_self n entries) j round
        (entries_with_self-AreKeys n entries f.key h)
        (parse-entries_with_self n entries f.key h j ∙ same_either (eq_text (port_str n.port) j) e)
    where
      same_either :
          {o : Option NodeStatus} (b : Bool)
          → o ≡ some alive
          → (if b then some alive else o) ≡ some alive
      same_either true e = refl
      same_either false e = e

  pub everyone_alive :
      (ns : List Node) (entries : Text)
      → Round net cluster start ns
      → AreKeys entries
      → All (λ n. get (parse_entries (gathered entries ns)) (port_str n.port) ≡ some alive) ns
  everyone_alive [] entries round h = tt
  everyone_alive (n ∷ ns) entries (f, round) h =
      let keys' = entries_with_self-AreKeys n entries f.key h in
      (
        alive_stays ns (entries_with_self n entries) (port_str n.port) round keys' (
            parse-entries_with_self n entries f.key h (port_str n.port)
            ∙ rw (eq_text_refl (port_str n.port))),
        everyone_alive ns (entries_with_self n entries) round keys',
      )
