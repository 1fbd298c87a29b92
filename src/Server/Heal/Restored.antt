-- ===== src/Server/Heal/Restored.antt =====
-- A node that died, started again by its neighbour: `handle_node_death` of src/server.rs together with
-- the handlers of the new process.
use ouroboros_fs.Base.{
  ℕ, ◌≡◌, refl, ap, ◌∙◌, false, List, [], ◌∷◌, ◌++◌, map, Option, none, some, Bool-cases, inl, inr,
  length, All, Result, ok, err,
}
use ouroboros_fs.Text.{Text, is_empty}
use ouroboros_fs.Map.{get, get-insert_self, keys}
use ouroboros_fs.Auth.Hmac.{IsDigest}
use ouroboros_fs.Node.{Node, Directory}
use ouroboros_fs.Node.Status.{alive}
use ouroboros_fs.Node.Address.{port_str}
use ouroboros_fs.Node.Netmap.{update_node_status}
use ouroboros_fs.Node.Topology.{get_next_for_node}
use ouroboros_fs.Node.Send.{Net, Sent, message, broadcast_netmap_update}
use ouroboros_fs.Server.Disk.{IoError, open_chunk_verified}
use ouroboros_fs.Server.Disk.Janitor.{is_partial}
use ouroboros_fs.Server.Heal.{
  unless_empty, next_command, state_commands, shared_commands, push_content, refill_from,
  anti_entropy_refill_successor,
}
use ouroboros_fs.Server.Heal.Shared.{receive_all, IsFresh, Sharable, Agrees, shared_commands-Agrees}
use ouroboros_fs.Server.Heal.Death.{Surroundings, Healing, handle_node_death}
use ouroboros_fs.Server.Heal.Death.Revived.{
  full_address, Revivable, sharer, given, handle_node_death-Revivable, told_dead,
}
use ouroboros_fs.Server.Heal.Refill.{
  receive_push, receive_sent, receive_sent-append, push_node, open-refill,
}

-- The parts of the state that the four texts carry.
record SameState (a b : Node) : Type 0 where
  nodes : a.network_nodes ≡ b.network_nodes
  topology : a.topology_map ≡ b.topology_map
  file_tags : a.file_tags ≡ b.file_tags
  next_hop : a.next_port ≡ b.next_port

same_refl : (a : Node) → SameState a a
same_refl a = record { nodes = refl; topology = refl; file_tags = refl; next_hop = refl }

same_trans : {a b c : Node} → SameState a b → SameState b c → SameState a c
same_trans x y = record {
  nodes = x.nodes ∙ y.nodes;
  topology = x.topology ∙ y.topology;
  file_tags = x.file_tags ∙ y.file_tags;
  next_hop = x.next_hop ∙ y.next_hop;
}

SameState-Agrees : (n a b : Node) (addr : Text) → SameState a b → Agrees n addr b → Agrees n addr a
SameState-Agrees n a b addr e g = record {
  same_nodes = λ j. ap (λ m. get m j) e.nodes ∙ g.same_nodes j;
  same_topology = λ j. ap (λ m. get m j) e.topology ∙ g.same_topology j;
  same_tags = λ j. ap (λ m. get m j) e.file_tags ∙ g.same_tags j;
  own_next = λ port h. e.next_hop ∙ g.own_next port h;
}

-- A broadcast counts, and changes nothing else.
broadcast_netmap_update-Agrees :
    (net : Net) (n out : Node) (addr : Text)
    → Agrees n addr out
    → Agrees (broadcast_netmap_update net n).0 addr out
unfolding broadcast_netmap_update get_next_for_node
broadcast_netmap_update-Agrees net n out addr g = record {
  same_nodes = g.same_nodes;
  same_topology = g.same_topology;
  same_tags = g.same_tags;
  own_next = g.own_next;
}

module _ (sha256 : List ℕ → List ℕ) where
  same_push :
      (n : Node) (addr name : Text) (r : Result (List ℕ) IoError) (m : Node)
      → SameState (receive_sent sha256 m (push_content sha256 n addr name r)) m
  unfolding receive_sent push_content
  same_push n addr name (err e) m = same_refl m
  same_push n addr name (ok body) m =
      rw (push_node sha256 m body name (length body))
        (record { nodes = refl; topology = refl; file_tags = refl; next_hop = refl })

  same_refill :
      (n : Node) (addr : Text) (dir files : Directory) (m : Node)
      → SameState (receive_sent sha256 m (refill_from sha256 n addr dir files)) m
  unfolding refill_from receive_sent
  same_refill n addr dir [] m = same_refl m
  same_refill n addr dir ((k, bytes) ∷ files) m =
      let offered = push_content sha256 n addr k (open_chunk_verified sha256 dir k) in
      elim (Bool-cases (is_partial k)) [
        | inl e ↦ rw e (same_refill n addr dir files m)
        | inr e ↦
            rw (e, receive_sent-append sha256 m offered)
              (same_trans (same_refill n addr dir files (receive_sent sha256 m offered))
                (same_push n addr k (open_chunk_verified sha256 dir k) m))
      ]

  state_received :
      (n m : Node) (addr entries history tags host : Text) (next : Option Text)
      → receive_sent sha256 m (map (message n addr) (state_commands entries history tags host next))
        ≡ receive_all m (state_commands entries history tags host next)
  unfolding receive_sent receive_push receive_all state_commands unless_empty next_command
  state_received n m addr entries [] [] host none = refl
  state_received n m addr entries [] [] host (some p) = refl
  state_received n m addr entries [] (x ∷ t) host none = refl
  state_received n m addr entries [] (x ∷ t) host (some p) = refl
  state_received n m addr entries (y ∷ h) [] host none = refl
  state_received n m addr entries (y ∷ h) [] host (some p) = refl
  state_received n m addr entries (y ∷ h) (x ∷ t) host none = refl
  state_received n m addr entries (y ∷ h) (x ∷ t) host (some p) = refl

  given_received :
      (n m : Node) (addr : Text)
      → receive_sent sha256 m (given sha256 n addr)
        ≡ receive_sent sha256
            (receive_all m (shared_commands n addr))
            (anti_entropy_refill_successor sha256 n addr)
  unfolding shared_commands
  given_received n m addr =
      receive_sent-append sha256 m (map (message n addr) (shared_commands n addr)) _
      ∙ ap (λ x. receive_sent sha256 x (anti_entropy_refill_successor sha256 n addr))
          (state_received n m addr _ _ _ _ _)

  pub given-Agrees :
      (n m : Node) (addr : Text)
      → Sharable n
      → IsFresh m
      → Agrees n addr (receive_sent sha256 m (given sha256 n addr))
  unfolding anti_entropy_refill_successor
  given-Agrees n m addr s f = rw (given_received n m addr) (
      SameState-Agrees n _ _ addr (same_refill n addr n.backup n.backup _)
        (shared_commands-Agrees n m addr s f))

-- The neighbour's node after a healing, and the new process `m` after what it was sent.
pub record Restored (sha256 : List ℕ → List ℕ) (n : Node) (addr : Text) (m : Node) (h : Healing)
    : Type 0 where
  pub succeeds : h.result ≡ ok tt
  pub source : Node
  pub earlier : List Sent
  pub later : List Sent
  pub sends : h.sent ≡ earlier ++ (given sha256 source (full_address addr) ++ later)
  pub marked : get h.node.network_nodes (port_str addr) ≡ some alive
  pub agrees :
      Agrees h.node
        (full_address addr)
        (receive_sent sha256 m (given sha256 source (full_address addr)))
  pub refilled :
      (name : Text) (body : List ℕ)
      → is_partial name ≡ false
      → open_chunk_verified sha256 n.backup name ≡ ok body
      → open_chunk_verified sha256
          (receive_sent sha256 m (given sha256 source (full_address addr))).content
          name
        ≡ ok body

-- Where a dead neighbour can be started again and takes every connection of its healer, handling
-- its death succeeds and marks it alive, and the new process, after what it was sent, has the
-- healer's status, topology and tags under every key, its own next hop if the healer's topology
-- knows one, and opens every chunk of the healer's backup with the same body, if the healer's
-- keys, ports and tags can be written as text, its backup has no empty names, and the process
-- knows no topology and no tags; SHA-256 gives 32 bytes.
pub handle_node_death-Restored :
    (sha256 : List ℕ → List ℕ) (s : Surroundings) (n m : Node) (addr : Text)
    → IsDigest sha256
    → Revivable s n addr
    → IsFresh m
    → Sharable (sharer s n addr)
    → All (λ k. is_empty k ≡ false) (keys n.backup)
    → Restored sha256 n addr m (handle_node_death sha256 s n addr)
unfolding broadcast_netmap_update update_node_status
handle_node_death-Restored sha256 s n m addr d r f sh hk =
    let e = handle_node_death-Revivable sha256 s n addr r in
    let x = sharer s n addr in
    let a = full_address addr in
    record {
      succeeds = rw e;
      source = x;
      earlier = (told_dead s n addr).1;
      later = (broadcast_netmap_update s.after x).1;
      sends = rw e;
      marked = rw e (get-insert_self (told_dead s n addr).0.network_nodes (port_str addr) alive);
      agrees = rw e (broadcast_netmap_update-Agrees s.after x _ a (given-Agrees sha256 x m a sh f));
      refilled = λ name body hn o.
          rw (given_received sha256 x m a)
            (open-refill sha256 d x (receive_all m (shared_commands x a)) a name body hk hn o);
    }
