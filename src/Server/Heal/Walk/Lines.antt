-- ===== src/Server/Heal/Walk/Lines.antt =====
-- Heal walks along the places of a ring (src/server.rs), each brought back by the node before it or well.
use mathlib.Core.Path.{subst}
use ouroboros_fs.Base.{
  ℕ, ◌≡◌, refl, sym, ap, ◌∙◌, true, false, List, [], ◌∷◌, ◌++◌, some, any, ◌||◌,
}
use ouroboros_fs.Text.{Text, eq_text, eq_text_refl}
use ouroboros_fs.Node.{Node}
use ouroboros_fs.Node.Send.{Sent, message}
use ouroboros_fs.Protocol.Command.{node_heal_hop, node_heal_done}
use ouroboros_fs.Server.Walk.Ring.{Cluster, Bears}
use ouroboros_fs.Server.Heal.Death.{Surroundings, Process, respawn_command}
use ouroboros_fs.Server.Heal.Death.Revived.{full_address, revived, revived_keeps}
use ouroboros_fs.Server.Heal.Walk.{Step, check_and_heal_neighbor, handle_node_heal_hop}
use ouroboros_fs.Server.Heal.Walk.Reborn.{reborn, reborn-next}
use ouroboros_fs.Server.Heal.Walk.Rounds.{
  process_address, after_step, HealHops, arrived, tends, Stop, well, lost, next_stop, Apart, Known,
  brought_back, HealLine, revivals,
}
use ouroboros_fs.Server.Heal.Walk.Steps.{last_step, well_step, lost_step}

-- A step of a node and the hops behind it, up to the message that comes back to the start.
pub record ComesBack (sha256 : List ℕ → List ℕ) (fresh : Text → Node) (s : Surroundings)
    (cluster : Cluster) (here t start : Text) (n : Node) (qs : List Stop) (x : Step) : Type 0 where
  pub first : Sent
  pub last : Sent
  pub later : List Process
  pub sends : x.forwarded ≡ first ∷ []
  pub path : HealHops sha256 fresh s (after_step sha256 fresh here x cluster) first later last
  pub starts : x.spawned ++ later ≡ revivals sha256 fresh s n qs
  pub bears : Bears start (node_heal_done t) last
  pub keeps : x.node.pending_heals ≡ n.pending_heals

module _ (sha256 : List ℕ → List ℕ) (fresh : Text → Node) (s : Surroundings) (t start : Text) where
  HealLine-Apart :
      (n : Node) (here : Text) (qs : List Stop)
      → HealLine sha256 fresh s start n here qs
      → Apart here qs
  HealLine-Apart n here [] h = tt
  HealLine-Apart n here (well m ∷ qs) (w, p, a, mn, rest) = a
  HealLine-Apart n here (lost addr ∷ qs) (l, p, a, f, rest) = a

  -- A step leaves alone who listens elsewhere.
  unchanged :
      (here addr : Text) (x : Step) (cluster : Cluster)
      → eq_text here addr ≡ false
      → any (λ p. eq_text (process_address p.arguments) addr) x.spawned ≡ false
      → after_step sha256 fresh here x cluster addr ≡ cluster addr
  unfolding after_step
  unchanged here addr x cluster ha hs = rw (ha, hs)

  none_started-Known :
      (here : Text) (x : Step) (cluster : Cluster) (qs : List Stop)
      → x.spawned ≡ []
      → Apart here qs
      → Known cluster qs
      → Known (after_step sha256 fresh here x cluster) qs
  none_started-Known here x cluster [] e a k = tt
  none_started-Known here x cluster (well m ∷ qs) e a k = (
    unchanged here m.port x cluster a.0
          (ap (any (λ p. eq_text (process_address p.arguments) m.port)) e)
        ∙ k.0,
    none_started-Known here x cluster qs e a.1 k.1,
  )
  none_started-Known here x cluster (lost addr ∷ qs) e a k =
      none_started-Known here x cluster qs e a.1 k

  one_started-Known :
      (here at : Text) (p : Process) (x : Step) (cluster : Cluster) (qs : List Stop)
      → x.spawned ≡ p ∷ []
      → process_address p.arguments ≡ at
      → Apart here qs
      → Apart at qs
      → Known cluster qs
      → Known (after_step sha256 fresh here x cluster) qs
  one_started-Known here at p x cluster [] e ep a b k = tt
  one_started-Known here at p x cluster (well m ∷ qs) e ep a b k =
      let none_there : any (λ p. eq_text (process_address p.arguments) m.port) x.spawned ≡ false =
        ap (any (λ p. eq_text (process_address p.arguments) m.port)) e
        ∙ ap (λ u. eq_text u m.port || false) ep
        ∙ ap (λ u. u || false) b.0 in
      (
        unchanged here m.port x cluster a.0 none_there ∙ k.0,
        one_started-Known here at p x cluster qs e ep a.1 b.1 k.1,
      )
  one_started-Known here at p x cluster (lost addr ∷ qs) e ep a b k =
      one_started-Known here at p x cluster qs e ep a.1 b.1 k

  -- The process that a step started listens at its address.
  listens_again :
      (here addr : Text) (p : Process) (x : Step) (sent : List Sent) (cluster : Cluster)
      → x.spawned ≡ p ∷ []
      → x.healing ≡ sent
      → process_address p.arguments ≡ addr
      → eq_text here addr ≡ false
      → after_step sha256 fresh here x cluster addr ≡ some (reborn sha256 fresh addr sent)
  unfolding after_step
  listens_again here addr p x sent cluster e eh ep ha =
      let there : any (λ p. eq_text (process_address p.arguments) addr) x.spawned ≡ true =
        ap (any (λ p. eq_text (process_address p.arguments) addr)) e
        ∙ ap (λ u. eq_text u addr || false) ep
        ∙ ap (λ u. u || false) (eq_text_refl addr) in
      rw (ha, there) (ap (λ l. some (reborn sha256 fresh addr l)) eh)

  started_at :
      (n : Node) (addr : Text) → process_address (respawn_command s n addr).arguments ≡ addr
  unfolding respawn_command
  started_at n addr = refl

  -- One more hop in front.
  hop :
      {cluster : Cluster} {to : Text} {n : Node} {qs : List Stop} (m : Sent)
      → Bears to (node_heal_hop t start) m
      → cluster to ≡ some n
      → (b : ComesBack sha256 fresh s cluster to t start n qs
          (check_and_heal_neighbor sha256 s n t start))
      → HealHops sha256 fresh s cluster m
          ((check_and_heal_neighbor sha256 s n t start).spawned ++ b.later)
          b.last
  unfolding handle_node_heal_hop
  hop {cluster} {to} {n} m r k b =
      tends n t start b.first r.carries (ap cluster r.goes_to ∙ k) b.sends (
        subst
          (λ a.
            HealHops sha256 fresh s
              (after_step sha256 fresh a (check_and_heal_neighbor sha256 s n t start) cluster)
              b.first b.later b.last)
          (sym r.goes_to) b.path)

  -- From every node of a line, the step and the hops behind it come back to the start.
  pub HealLine-ComesBack :
      (qs : List Stop) (n : Node) (here : Text) (cluster : Cluster)
      → n.next_port ≡ some (next_stop start qs)
      → Known cluster qs
      → HealLine sha256 fresh s start n here qs
      → ComesBack sha256 fresh s cluster here t start n qs
          (check_and_heal_neighbor sha256 s n t start)
  HealLine-ComesBack [] n here cluster hn k up =
      let e = last_step sha256 s n t start hn up in
      record {
        first = message n start (node_heal_done t);
        last = message n start (node_heal_done t);
        later = [];
        sends = ap (λ x. x.forwarded) e;
        path = arrived;
        starts = ap (λ x. x.spawned ++ []) e;
        bears = record { goes_to = refl; carries = refl };
        keeps = ap (λ x. x.node.pending_heals) e;
      }
  HealLine-ComesBack (well m ∷ qs) n here cluster hn k (w, p, a, mn, rest) =
      let e = well_step sha256 s n t start m.port hn p w in
      let x = check_and_heal_neighbor sha256 s n t start in
      let next = message n m.port (node_heal_hop t start) in
      let none_started : x.spawned ≡ [] = ap (λ x. x.spawned) e in
      let now = after_step sha256 fresh here x cluster in
      let known = none_started-Known here x cluster (well m ∷ qs) none_started a k in
      let b = HealLine-ComesBack qs m m.port now mn known.1 rest in
      record {
        first = next;
        last = b.last;
        later = (check_and_heal_neighbor sha256 s m t start).spawned ++ b.later;
        sends = ap (λ x. x.forwarded) e;
        path = hop next (record { goes_to = refl; carries = refl }) known.0 b;
        starts =
            ap (λ ps. ps ++ ((check_and_heal_neighbor sha256 s m t start).spawned ++ b.later))
              none_started
            ∙ b.starts;
        bears = b.bears;
        keeps = ap (λ x. x.node.pending_heals) e;
      }
  HealLine-ComesBack (lost addr ∷ qs) n here cluster hn k (l, p, a, f, rest) =
      let e = lost_step sha256 s n t start addr (next_stop start qs) hn p l in
      let x = check_and_heal_neighbor sha256 s n t start in
      let h = revived sha256 s n addr in
      let m = brought_back sha256 fresh s n addr in
      let next = message h.node addr (node_heal_hop t start) in
      let p = respawn_command s n (full_address addr) in
      let at_address = started_at n (full_address addr) ∙ l.written in
      let one_started : x.spawned ≡ p ∷ [] = ap (λ x. x.spawned) e in
      let now = after_step sha256 fresh here x cluster in
      let there =
        listens_again here addr p x h.sent cluster one_started (ap (λ x. x.healing) e) at_address
          a.0 in
      let known =
        one_started-Known here addr p x cluster qs one_started at_address a.1
          (HealLine-Apart m addr qs rest) k in
      let mn =
        reborn-next sha256 fresh s n addr l.port f l.written l.sharable l.knows ∙ ap some l.leads in
      let b = HealLine-ComesBack qs m addr now mn known rest in
      record {
        first = next;
        last = b.last;
        later = (check_and_heal_neighbor sha256 s m t start).spawned ++ b.later;
        sends = ap (λ x. x.forwarded) e;
        path = hop next (record { goes_to = refl; carries = refl }) there b;
        starts =
            ap (λ ps. ps ++ ((check_and_heal_neighbor sha256 s m t start).spawned ++ b.later))
              one_started
            ∙ ap (λ ps. p ∷ ps) b.starts;
        bears = b.bears;
        keeps = ap (λ x. x.node.pending_heals) e ∙ revived_keeps sha256 s n addr;
      }
