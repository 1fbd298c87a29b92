-- ===== src/Server/Heal/Death/Revived.antt =====
-- `handle_node_death` (src/server.rs) where the process comes up: every step of it in turn.
use ouroboros_fs.Base.{
  ℕ, ◌≡◌, refl, ap, ◌∙◌, Bool, true, not, List, [], ◌∷◌, ◌++◌, some, map, ok, if◌then◌else◌,
}
use ouroboros_fs.Text.{Text}
use ouroboros_fs.Text.Decimal.{decimal, parse_uint, max_u16}
use ouroboros_fs.Node.{Node}
use ouroboros_fs.Node.Status.{alive, dead}
use ouroboros_fs.Node.Address.{port_str, host_of, address}
use ouroboros_fs.Node.Netmap.{update_node_status}
use ouroboros_fs.Node.Send.{Sent, message, broadcast_netmap_update}
use ouroboros_fs.Protocol.Command.{Command}
use ouroboros_fs.Server.Heal.{
  share_lines, taken, after_lines, shared_commands, share_data_with_new_node,
  anti_entropy_refill_successor,
}
use ouroboros_fs.Server.Heal.Death.{
  Surroundings, Process, respawn_command, Healing, shared, respawned, handle_node_death,
}

-- The address at which a dead node is started again.
abbrev pub full_address : Text → Text
full_address addr = address (host_of addr) (port_str addr)

-- A dead node can be brought back.
pub record Revivable (s : Surroundings) (n : Node) (addr : Text) : Type 0 where
  pub respawns : n.respawn_dead ≡ true
  pub spawns : s.spawns ≡ true
  pub port : ℕ
  pub port_number : parse_uint max_u16 (port_str addr) ≡ some port
  pub listening : s.listens (address (host_of addr) (decimal port)) ≡ true
  pub shares : (c : Command) → s.reaches (full_address addr) c ≡ true

-- The node after the first broadcast, and when it shares its data.
abbrev pub told_dead : Surroundings → Node → Text → Node × List Sent
told_dead s n addr = broadcast_netmap_update s.before (update_node_status n (port_str addr) dead)

abbrev pub sharer : Surroundings → Node → Text → Node
sharer s n addr = update_node_status (told_dead s n addr).0 (port_str addr) alive

abbrev pub given : (List ℕ → List ℕ) → Node → Text → List Sent
given sha256 m addr =
    map (message m addr) (shared_commands m addr) ++ anti_entropy_refill_successor sha256 m addr

abbrev pub revived : (List ℕ → List ℕ) → Surroundings → Node → Text → Healing
revived sha256 s n addr =
    let m = sharer s n addr in
    record {
      node = (broadcast_netmap_update s.after m).0;
      sent =
          (told_dead s n addr).1
          ++ (given sha256 m (full_address addr) ++ (broadcast_netmap_update s.after m).1);
      spawned = respawn_command s n (full_address addr) ∷ [];
      result = ok tt;
    }

lines_taken :
    (reaches : Command → Bool) (n : Node) (addr : Text)
    → ((c : Command) → reaches c ≡ true)
    → (cs : List Command) → share_lines reaches n addr cs ≡ (map (message n addr) cs, true)
unfolding share_lines
lines_taken reaches n addr h [] = refl
lines_taken reaches n addr h (c ∷ cs) =
    rw (h c) (ap (λ r. (message n addr c ∷ r.0, r.1)) (lines_taken reaches n addr h cs))

all_taken :
    (reaches : Command → Bool)
    → ((c : Command) → reaches c ≡ true)
    → (xs : List Sent) → taken reaches xs ≡ xs
unfolding taken
all_taken reaches h [] = refl
all_taken reaches h (x ∷ xs) = rw (h x.command) (ap (λ r. x ∷ r) (all_taken reaches h xs))

-- Both guards of a respawn are passed.
both_pass :
    (b c : Bool) (x y z : Healing)
    → b ≡ true
    → c ≡ true
    → (if not b then x else if c then y else z) ≡ y
both_pass b c x y z hb hc = rw (hb, hc)

module _ (sha256 : List ℕ → List ℕ) (s : Surroundings) where
  told_all :
      (m : Node) (addr : Text) (sent : List Sent) (spawned : List Process)
      → ((c : Command) → s.reaches addr c ≡ true)
      → shared sha256 s m sent spawned
          (share_data_with_new_node sha256 (s.reaches addr) (s.after.reason addr) m addr)
        ≡ shared sha256 s m sent spawned (given sha256 m addr, ok tt)
  unfolding share_data_with_new_node after_lines
  told_all m addr sent spawned h =
      let reaches = s.reaches addr in
      ap
        (λ r.
          shared sha256 s m sent spawned
            (after_lines sha256 reaches (s.after.reason addr) m addr r))
        (lines_taken reaches m addr h (shared_commands m addr))
      ∙ ap
          (λ xs.
            shared sha256 s m sent spawned
              (map (message m addr) (shared_commands m addr) ++ xs, ok tt))
          (all_taken reaches h (anti_entropy_refill_successor sha256 m addr))

  listening_process :
      (n : Node) (sent : List Sent) (host port : Text) (spawned : List Process) (p : ℕ)
      → s.listens (address host (decimal p)) ≡ true
      → ((c : Command) → s.reaches (address host port) c ≡ true)
      → respawned sha256 s n sent host port spawned (some p)
        ≡ shared sha256 s
            (update_node_status n port alive)
            sent
            spawned
            (given sha256 (update_node_status n port alive) (address host port), ok tt)
  unfolding respawned
  listening_process n sent host port spawned p hl hu =
      rw hl (told_all (update_node_status n port alive) (address host port) sent spawned hu)

  pub handle_node_death-Revivable :
      (n : Node) (addr : Text)
      → Revivable s n addr
      → handle_node_death sha256 s n addr ≡ revived sha256 s n addr
  unfolding handle_node_death shared
  handle_node_death-Revivable n addr r =
      let told = told_dead s n addr in
      let ps = respawn_command s n (full_address addr) ∷ [] in
      both_pass n.respawn_dead s.spawns _ _ _ r.respawns r.spawns
      ∙ ap (λ o. respawned sha256 s told.0 told.1 (host_of addr) (port_str addr) ps o) r.port_number
      ∙ listening_process told.0 told.1 (host_of addr) (port_str addr) ps r.port r.listening
          r.shares

  pub revived_keeps :
      (n : Node) (addr : Text) → (revived sha256 s n addr).node.pending_heals ≡ n.pending_heals
  unfolding broadcast_netmap_update update_node_status
  revived_keeps n addr = refl
