-- ===== src/Server/Heal/Walk/Rounds.antt =====
-- The heal walk round a ring: `NODE HEAL-HOP` messages are delivered one after another, and each
-- step of src/server.rs checks the next node, heals it, and sends the message on. A step changes who
-- listens: its node went on, and a process that it started stands at its address.
use ouroboros_fs.Base.{ℕ, ◌≡◌, true, false, List, [], ◌∷◌, ◌++◌, some, if◌then◌else◌, any, All}
use ouroboros_fs.Text.{Text, eq_text}
use ouroboros_fs.Node.{Node}
use ouroboros_fs.Node.Address.{port_str, host_of, address}
use ouroboros_fs.Node.Topology.{get_next_for_node}
use ouroboros_fs.Node.Send.{Sent}
use ouroboros_fs.Protocol.Command.{node_heal_hop}
use ouroboros_fs.Server.Walk.Ring.{Cluster}
use ouroboros_fs.Server.Heal.Death.{Surroundings, Process, respawn_command, check_node_health}
use ouroboros_fs.Server.Heal.Death.Revived.{full_address, Revivable, sharer, revived}
use ouroboros_fs.Server.Heal.Shared.{IsFresh, Sharable}
use ouroboros_fs.Server.Heal.Walk.{Step, handle_node_heal_hop}
use ouroboros_fs.Server.Heal.Walk.Reborn.{reborn}

-- The address behind `run --addr`.
abbrev pub process_address : List Text → Text
process_address (run ∷ flag ∷ addr ∷ rest) = addr
process_address _ = []

-- `fresh` is what listens at an address when its process has just started.
module _ (sha256 : List ℕ → List ℕ) (fresh : Text → Node) where
  -- Who listens after a step of the node at `here`: that node, the processes that the step started,
  -- after the connections it made to them, and whoever listened before.
  unfoldable pub after_step : Text → Step → Cluster → Cluster
  after_step here x cluster addr =
      if eq_text here addr
      then some x.node
      else if any (λ p. eq_text (process_address p.arguments) addr) x.spawned
      then some (reborn sha256 fresh addr x.healing)
      else cluster addr

-- A message, the processes that its hops started, and the message that stands at their end.
pub data HealHops (sha256 : List ℕ → List ℕ) (fresh : Text → Node) (s : Surroundings)
    : Cluster → Sent → List Process → Sent → Type 0 where
  arrived : {cluster : Cluster} {m : Sent} → HealHops sha256 fresh s cluster m [] m
  tends :
      {cluster : Cluster} {m last : Sent} {more : List Process} (n : Node) (t start : Text)
      (next : Sent)
      → m.command ≡ node_heal_hop t start
      → cluster m.to ≡ some n
      → (handle_node_heal_hop sha256 s n t start).1.forwarded ≡ next ∷ []
      → HealHops sha256 fresh s
          (after_step sha256 fresh m.to (handle_node_heal_hop sha256 s n t start).1 cluster)
          next
          more
          last
      → HealHops sha256 fresh s cluster m
          ((handle_node_heal_hop sha256 s n t start).1.spawned ++ more)
          last

-- The places after the start: a node that answers, or an address at which none does.
pub data Stop : Type 0 where
  well : Node → Stop
  lost : Text → Stop

abbrev pub stop_address : Stop → Text
stop_address (well m) = m.port
stop_address (lost addr) = addr

abbrev pub next_stop : Text → List Stop → Text
next_stop start [] = start
next_stop start (q ∷ qs) = stop_address q

-- The next node answers, or can be brought back.
pub record IsWell (s : Surroundings) (addr : Text) : Type 0 where
  pub answers : check_node_health (s.pong addr) ≡ true
  pub reached : s.before.up addr ≡ true

-- The healer can start the process again, and its topology knows the next hop of that.
pub record IsLost (s : Surroundings) (n : Node) (addr next : Text) : Type 0 where
  pub silent : check_node_health (s.pong addr) ≡ false
  pub revivable : Revivable s n addr
  pub reached : s.after.up addr ≡ true
  pub written : full_address addr ≡ addr
  pub sharable : Sharable (sharer s n addr)
  pub port : Text
  pub knows : get_next_for_node (sharer s n addr) (port_str addr) ≡ some port
  pub leads : address (host_of (sharer s n addr).port) port ≡ next

-- No later place has this address.
abbrev pub Apart : Text → List Stop → Type 0
Apart addr = All (λ q. eq_text addr (stop_address q) ≡ false)

-- The nodes that answer listen at their addresses.
abbrev pub Known : Cluster → List Stop → Type 0
Known cluster [] = Unit
Known cluster (well m ∷ qs) = (cluster m.port ≡ some m) × Known cluster qs
Known cluster (lost addr ∷ qs) = Known cluster qs

module _ (sha256 : List ℕ → List ℕ) (fresh : Text → Node) (s : Surroundings) where
  -- What a lost node is after its healing.
  abbrev pub brought_back : Node → Text → Node
  brought_back n addr = reborn sha256 fresh addr (revived sha256 s n addr).sent

  -- The processes for the places that do not answer, each by the node before it.
  abbrev pub revivals : Node → List Stop → List Process
  revivals n [] = []
  revivals n (well m ∷ qs) = revivals m qs
  revivals n (lost addr ∷ qs) =
      respawn_command s n (full_address addr) ∷ revivals (brought_back n addr) qs

module _ (sha256 : List ℕ → List ℕ) (fresh : Text → Node) (s : Surroundings) (start : Text) where
  -- The places behind a node and its address. A node that answers has its next hop; one that was
  -- brought back has what it was sent.
  abbrev pub HealLine : Node → Text → List Stop → Type 0
  HealLine n here [] = s.before.up start ≡ true
  HealLine n here (well m ∷ qs) =
      IsWell s m.port
      × (eq_text (port_str m.port) (port_str start) ≡ false)
      × Apart here (well m ∷ qs)
      × (m.next_port ≡ some (next_stop start qs))
      × HealLine m m.port qs
  HealLine n here (lost addr ∷ qs) =
      IsLost s n addr (next_stop start qs)
      × (eq_text (port_str addr) (port_str start) ≡ false)
      × Apart here (lost addr ∷ qs)
      × IsFresh (fresh addr)
      × HealLine (brought_back sha256 fresh s n addr) addr qs
