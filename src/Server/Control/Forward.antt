-- ===== src/Server/Control/Forward.antt =====
-- A `RING FORWARD` message on its way: each delivery is one call of `handle_ring_forward`
-- (src/server.rs), which sends the message on with one hop less to live.
use ouroboros_fs.Base.{
  ℕ, zero, suc, ◌+◌, ◌≤◌, ◌≡◌, ap, sym, true, false, Bool, if◌then◌else◌, List, [], ◌∷◌, Option,
  none, some, arith, ok, err,
}
use ouroboros_fs.Text.{Text}
use ouroboros_fs.Node.{Node, get_next}
use ouroboros_fs.Node.Send.{Net, Sent, message, forward_ring_forward, send_next, send_to}
use ouroboros_fs.Protocol.Command.{Command, ring_forward}
use ouroboros_fs.Server.Control.{handle_ring_forward, sent_by}

-- `k` calls of `handle_ring_forward`, the first of which takes the message `m`: each next one takes
-- what the call before it sent, and the last may send on or not. The nodes and the network may change
-- in between.
pub data Deliveries : ℕ → Sent → Type 0 where
  undelivered : {m : Sent} → Deliveries 0 m
  delivered :
      {m : Sent} (net : Net) (n : Node) (ttl : ℕ) (msg : Text)
      → m.command ≡ ring_forward ttl msg
      → Deliveries 1 m
  delivered_on :
      {k : ℕ} {m : Sent} (net : Net) (n : Node) (ttl : ℕ) (msg : Text) (next : Sent)
      → m.command ≡ ring_forward ttl msg
      → (handle_ring_forward net n ttl msg).sent ≡ next ∷ []
      → Deliveries k next
      → Deliveries (suc k) m

-- The hops that a message has left.
unfoldable pub hops_left : Command → ℕ
hops_left (ring_forward ttl msg) = ttl
hops_left c = 0

command_or : Command → List Sent → Command
command_or c [] = c
command_or c (m ∷ ms) = m.command

sent_to :
    (b : Bool) (m next : Sent) (e : Text)
    → sent_by (if b then ok (m ∷ []) else err e) ≡ next ∷ []
    → next.command ≡ m.command
unfolding command_or
sent_to true m next e h = sym (ap (command_or m.command) h)
sent_to false m next e h = cc

sent_on :
    (net : Net) (n : Node) (c : Command) (next : Sent) (o : Option Text)
    → sent_by (elim o [ none ↦ ok [] | some to ↦ send_to net n to c ]) ≡ next ∷ []
    → next.command ≡ c
unfolding send_to
sent_on net n c next none h = cc
sent_on net n c next (some to) h = sent_to (net.up to) (message n to c) next (net.reason to) h

only_next :
    (net : Net) (n : Node) (ttl : ℕ) (msg : Text) (next : Sent)
    → sent_by (forward_ring_forward net n ttl msg) ≡ next ∷ []
    → next.command ≡ ring_forward ttl msg
unfolding forward_ring_forward send_next
only_next net n ttl msg next h = sent_on net n (ring_forward ttl msg) next (get_next n) h

-- A delivery needs a hop, and takes it.
handled_next :
    (net : Net) (n : Node) (ttl : ℕ) (msg : Text) (next : Sent)
    → (handle_ring_forward net n ttl msg).sent ≡ next ∷ []
    → suc (hops_left next.command) ≡ ttl
unfolding handle_ring_forward hops_left
handled_next net n zero msg next h = cc
handled_next net n (suc ttl) msg next h =
    ap (λ c. suc (hops_left c)) (only_next net n ttl msg next h)

-- A RING FORWARD message is handled at most once more often than its hops to live say, the last
-- call that sends nothing on included, whatever the nodes and the network are at each delivery.
pub Deliveries-bounded : {k : ℕ} {m : Sent} → Deliveries k m → k ≤ hops_left m.command + 1
unfolding hops_left
Deliveries-bounded undelivered = omega arith
Deliveries-bounded (delivered net n ttl msg hc) = omega arith
Deliveries-bounded (delivered_on {k} {m} net n ttl msg next hc hs path) =
    let shorter = Deliveries-bounded path in
    let spent = handled_next net n ttl msg next hs in
    let start : hops_left m.command ≡ ttl = ap hops_left hc in omega (arith, shorter, spent, start)
