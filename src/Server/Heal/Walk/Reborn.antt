-- ===== src/Server/Heal/Walk/Reborn.antt =====
-- A process that `handle_node_death` (src/server.rs) started, after the lines of that healing that are
-- addressed to it: it has its next hop from its healer's topology, and from nowhere else.
use ouroboros_fs.Base.{
  ℕ, ◌≡◌, refl, ap, ◌∙◌, true, List, [], ◌∷◌, ◌++◌, map, some, if◌then◌else◌, All, Bool-cases, inl,
  inr, Result, ok, err,
}
use ouroboros_fs.Text.{Text, eq_text, eq_text_refl}
use ouroboros_fs.Node.{Node, Directory}
use ouroboros_fs.Node.Address.{port_str, host_of, host_str, address}
use ouroboros_fs.Node.Topology.{get_next_for_node}
use ouroboros_fs.Node.Netmap.{set_network_nodes_from_entries}
use ouroboros_fs.Node.Send.{Net, Sent, message, send_all, broadcast_netmap, broadcast_netmap_update}
use ouroboros_fs.Protocol.Command.{Command, netmap_set}
use ouroboros_fs.Server.Discover.{handle_netmap_set}
use ouroboros_fs.Server.Disk.{IoError, open_chunk_verified}
use ouroboros_fs.Server.Disk.Janitor.{is_partial}
use ouroboros_fs.Server.Heal.{
  shared_commands, push_content, refill_from, anti_entropy_refill_successor,
}
use ouroboros_fs.Server.Heal.Shared.{receive, IsFresh, Sharable}
use ouroboros_fs.Server.Heal.Death.{Surroundings}
use ouroboros_fs.Server.Heal.Death.Revived.{full_address, told_dead, sharer, given, revived}
use ouroboros_fs.Server.Heal.Refill.{receive_push, receive_sent, receive_sent-append}
use ouroboros_fs.Server.Heal.Restored.{given-Agrees}

-- The connections to one address.
unfoldable pub addressed : Text → List Sent → List Sent
addressed addr [] = []
addressed addr (x ∷ xs) =
    let rest = addressed addr xs in if eq_text x.to addr then x ∷ rest else rest

addressed-append :
    (addr : Text) (xs ys : List Sent)
    → addressed addr (xs ++ ys) ≡ addressed addr xs ++ addressed addr ys
unfolding addressed
addressed-append addr [] ys = refl
addressed-append addr (x ∷ xs) ys = elim (Bool-cases (eq_text x.to addr)) [
  | inl e ↦ rw e (ap (λ r. x ∷ r) (addressed-append addr xs ys))
  | inr e ↦ rw e (addressed-append addr xs ys)
]

-- Every connection goes to one address.
abbrev GoTo : Text → List Sent → Type 0
GoTo addr = All (λ x. x.to ≡ addr)

addressed-GoTo : (addr : Text) (xs : List Sent) → GoTo addr xs → addressed addr xs ≡ xs
unfolding addressed
addressed-GoTo addr [] h = refl
addressed-GoTo addr (x ∷ xs) h =
    let e : eq_text x.to addr ≡ true = ap (λ a. eq_text a addr) h.0 ∙ eq_text_refl addr in
    rw e (ap (λ r. x ∷ r) (addressed-GoTo addr xs h.1))

GoTo-append : (addr : Text) (xs ys : List Sent) → GoTo addr xs → GoTo addr ys → GoTo addr (xs ++ ys)
GoTo-append addr [] ys h k = k
GoTo-append addr (x ∷ xs) ys h k = (h.0, GoTo-append addr xs ys h.1 k)

message-GoTo : (n : Node) (addr : Text) (cs : List Command) → GoTo addr (map (message n addr) cs)
message-GoTo n addr [] = tt
message-GoTo n addr (c ∷ cs) = (refl, message-GoTo n addr cs)

-- Connections that bring no more than netmaps.
abbrev OnlyNetmaps : List Sent → Type 0
OnlyNetmaps = All (λ x. (entries : Text) × (x.command ≡ netmap_set entries))

addressed-OnlyNetmaps :
    (addr : Text) (xs : List Sent) → OnlyNetmaps xs → OnlyNetmaps (addressed addr xs)
unfolding addressed
addressed-OnlyNetmaps addr [] h = tt
addressed-OnlyNetmaps addr (x ∷ xs) h = elim (Bool-cases (eq_text x.to addr)) [
  | inl e ↦ rw e (h.0, addressed-OnlyNetmaps addr xs h.1)
  | inr e ↦ rw e (addressed-OnlyNetmaps addr xs h.1)
]

send_all-OnlyNetmaps :
    (net : Net) (n : Node) (ports : List Text) (entries : Text)
    → OnlyNetmaps (send_all net n ports (netmap_set entries))
unfolding send_all
send_all-OnlyNetmaps net n [] entries = tt
send_all-OnlyNetmaps net n (port ∷ ports) entries =
    let addr = address (host_str n.port) port in
    elim (Bool-cases (eq_text addr n.port)) [
      | inl e ↦ rw e (send_all-OnlyNetmaps net n ports entries)
      | inr e ↦ elim (Bool-cases (net.up addr)) [
        | inl u ↦ rw (e, u) ((entries, refl), send_all-OnlyNetmaps net n ports entries)
        | inr u ↦ rw (e, u) (send_all-OnlyNetmaps net n ports entries)
      ]
    ]

broadcast_netmap_update-OnlyNetmaps :
    (net : Net) (n : Node) → OnlyNetmaps (broadcast_netmap_update net n).1
unfolding broadcast_netmap_update broadcast_netmap
broadcast_netmap_update-OnlyNetmaps net n = send_all-OnlyNetmaps net n _ _

-- What a netmap leaves alone.
record Keeps (a b : Node) : Type 0 where
  next_hop : a.next_port ≡ b.next_port
  topology : a.topology_map ≡ b.topology_map
  file_tags : a.file_tags ≡ b.file_tags

module _ (sha256 : List ℕ → List ℕ) where
  one_kept :
      (m : Node) (payload : List ℕ) (entries : Text)
      → Keeps (receive_push sha256 m payload (netmap_set entries)) m
  unfolding receive_push receive handle_netmap_set set_network_nodes_from_entries
  one_kept m payload entries = record { next_hop = refl; topology = refl; file_tags = refl }

  receive_sent-Keeps :
      (xs : List Sent) (m : Node) → OnlyNetmaps xs → Keeps (receive_sent sha256 m xs) m
  unfolding receive_sent
  receive_sent-Keeps [] m h = record { next_hop = refl; topology = refl; file_tags = refl }
  receive_sent-Keeps (x ∷ xs) m ((entries, e), h) =
      let next = receive_push sha256 m x.payload x.command in
      let rest = receive_sent-Keeps xs next h in
      let one = one_kept m x.payload entries in
      record {
        next_hop =
            rest.next_hop
            ∙ ap (λ c. (receive_push sha256 m x.payload c).next_port) e
            ∙ one.next_hop;
        topology =
            rest.topology
            ∙ ap (λ c. (receive_push sha256 m x.payload c).topology_map) e
            ∙ one.topology;
        file_tags =
            rest.file_tags
            ∙ ap (λ c. (receive_push sha256 m x.payload c).file_tags) e
            ∙ one.file_tags;
      }

  content-GoTo :
      (n : Node) (addr name : Text) (r : Result (List ℕ) IoError)
      → GoTo addr (push_content sha256 n addr name r)
  unfolding push_content
  content-GoTo n addr name (ok body) = (refl, tt)
  content-GoTo n addr name (err e) = tt

  refill-GoTo :
      (n : Node) (addr : Text) (dir files : Directory)
      → GoTo addr (refill_from sha256 n addr dir files)
  unfolding refill_from
  refill-GoTo n addr dir [] = tt
  refill-GoTo n addr dir ((name, bytes) ∷ files) = elim (Bool-cases (is_partial name)) [
    | inl e ↦ rw e (refill-GoTo n addr dir files)
    | inr e ↦ rw e (
        GoTo-append addr (push_content sha256 n addr name (open_chunk_verified sha256 dir name)) _
          (content-GoTo n addr name _) (refill-GoTo n addr dir files))
  ]

  given-GoTo : (n : Node) (addr : Text) → GoTo addr (given sha256 n addr)
  unfolding anti_entropy_refill_successor
  given-GoTo n addr =
      GoTo-append addr (map (message n addr) (shared_commands n addr)) _
        (message-GoTo n addr (shared_commands n addr)) (refill-GoTo n addr n.backup n.backup)

  -- A new process, and what it is after the connections to it.
  unfoldable pub reborn : (Text → Node) → Text → List Sent → Node
  reborn fresh addr sent = receive_sent sha256 (fresh addr) (addressed addr sent)

  pub reborn-next :
      (fresh : Text → Node) (s : Surroundings) (n : Node) (addr port : Text)
      → IsFresh (fresh addr)
      → full_address addr ≡ addr
      → Sharable (sharer s n addr)
      → get_next_for_node (sharer s n addr) (port_str addr) ≡ some port
      → (reborn fresh addr (revived sha256 s n addr).sent).next_port
        ≡ some (address (host_of (sharer s n addr).port) port)
  unfolding reborn
  reborn-next fresh s n addr port f full sh knows =
      let x = sharer s n addr in
      let told = (told_dead s n addr).1 in
      let later = (broadcast_netmap_update s.after x).1 in
      let g = given sha256 x addr in
      let before = receive_sent sha256 (fresh addr) (addressed addr told) in
      let kept =
        receive_sent-Keeps (addressed addr told) (fresh addr)
          (addressed-OnlyNetmaps addr told (broadcast_netmap_update-OnlyNetmaps s.before _)) in
      let parts : addressed addr (told ++ (g ++ later))
          ≡ addressed addr told ++ (g ++ addressed addr later) =
        addressed-append addr told (g ++ later)
        ∙ ap (λ l. addressed addr told ++ l)
            (addressed-append addr g later
              ∙ ap (λ l. l ++ addressed addr later) (addressed-GoTo addr g (given-GoTo x addr))) in
      ap
        (λ a.
          (receive_sent sha256 (fresh addr)
            (addressed addr (told ++ (given sha256 x a ++ later)))).next_port)
        full
      ∙ ap (λ l. (receive_sent sha256 (fresh addr) l).next_port) parts
      ∙ ap (λ r. r.next_port)
          (receive_sent-append sha256 (fresh addr) (addressed addr told)
            (g ++ addressed addr later))
      ∙ ap (λ r. r.next_port) (receive_sent-append sha256 before g (addressed addr later))
      ∙ (receive_sent-Keeps (addressed addr later) (receive_sent sha256 before g) (
          addressed-OnlyNetmaps addr later
            (broadcast_netmap_update-OnlyNetmaps s.after x))).next_hop
      ∙ (given-Agrees sha256 x before addr sh (record {
        no_topology = kept.topology ∙ f.no_topology;
        no_tags = kept.file_tags ∙ f.no_tags;
      })).own_next
          port knows
