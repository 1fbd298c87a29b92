-- ===== src/Server/Heal/Walk/Steps.antt =====
-- One step of the heal walk (`check_and_heal_neighbor` of src/server.rs) on each of its branches that
-- send the walk on.
use ouroboros_fs.Base.{ℕ, ◌≡◌, ap, ◌∙◌, Bool, true, false, List, [], ◌∷◌, some, if◌then◌else◌, ok}
use ouroboros_fs.Text.{Text, eq_text, eq_text_refl}
use ouroboros_fs.Node.{Node, get_next}
use ouroboros_fs.Node.Address.{port_str}
use ouroboros_fs.Node.Send.{Net, Sent, message, send_to}
use ouroboros_fs.Protocol.Command.{Command, node_heal_hop, node_heal_done}
use ouroboros_fs.Server.Heal.Death.{Surroundings, Process}
use ouroboros_fs.Server.Heal.Death.Revived.{revived, handle_node_death-Revivable}
use ouroboros_fs.Server.Heal.Walk.{
  Step, carried, healed, next_step, step_to, check_and_heal_neighbor,
}
use ouroboros_fs.Server.Heal.Walk.Rounds.{IsWell, IsLost}

module _ (sha256 : List ℕ → List ℕ) (s : Surroundings) where
  abbrev pub plain_step : Node → List Sent → List Process → Sent → Step
  plain_step n healing spawned m = record {
    node = n;
    healing = healing;
    spawned = spawned;
    forwarded = m ∷ [];
    result = ok tt;
  }

  goes_on :
      (net : Net) (n : Node) (healing : List Sent) (ps : List Process) (to : Text) (c : Command)
      → net.up to ≡ true
      → carried n healing ps (send_to net n to c) ≡ plain_step n healing ps (message n to c)
  unfolding send_to carried
  goes_on net n healing ps to c h = rw h

  branch :
      (a b : Bool) (x y z : Step)
      → (a ≡ false)
      → ((b ≡ true) → (if a then x else if b then y else z) ≡ y)
        × ((b ≡ false) → (if a then x else if b then y else z) ≡ z)
  branch a b x y z ha = (λ hb. rw (ha, hb), λ hb. rw (ha, hb))

  to_next :
      (n : Node) (t start next : Text)
      → n.next_port ≡ some next
      → check_and_heal_neighbor sha256 s n t start ≡ step_to sha256 s n t start next
  unfolding check_and_heal_neighbor next_step get_next
  to_next n t start next h = ap (next_step sha256 s n t start) h

  pub last_step :
      (n : Node) (t start : Text)
      → n.next_port ≡ some start
      → s.before.up start ≡ true
      → check_and_heal_neighbor sha256 s n t start
        ≡ plain_step n [] [] (message n start (node_heal_done t))
  unfolding step_to
  last_step n t start hn hu =
      to_next n t start start hn
      ∙ rw (eq_text_refl (port_str start)) (goes_on s.before n [] [] start (node_heal_done t) hu)

  pub well_step :
      (n : Node) (t start addr : Text)
      → n.next_port ≡ some addr
      → eq_text (port_str addr) (port_str start) ≡ false
      → IsWell s addr
      → check_and_heal_neighbor sha256 s n t start
        ≡ plain_step n [] [] (message n addr (node_heal_hop t start))
  unfolding step_to
  well_step n t start addr hn ha w =
      to_next n t start addr hn
      ∙ (branch _ _ _ _ _ ha).0 w.answers
      ∙ goes_on s.before n [] [] addr (node_heal_hop t start) w.reached

  pub lost_step :
      (n : Node) (t start addr next : Text)
      → n.next_port ≡ some addr
      → eq_text (port_str addr) (port_str start) ≡ false
      → IsLost s n addr next
      → check_and_heal_neighbor sha256 s n t start
        ≡ plain_step
            (revived sha256 s n addr).node
            (revived sha256 s n addr).sent
            (revived sha256 s n addr).spawned
            (message (revived sha256 s n addr).node addr (node_heal_hop t start))
  unfolding step_to healed
  lost_step n t start addr next hn ha l =
      let h = revived sha256 s n addr in
      to_next n t start addr hn
      ∙ (branch _ _ _ _ _ ha).1 l.silent
      ∙ ap (λ g. healed s.after t start addr g g.result)
          (handle_node_death-Revivable sha256 s n addr l.revivable)
      ∙ goes_on s.after h.node h.sent h.spawned addr (node_heal_hop t start) l.reached
