-- ===== src/Server/Heal/Death.antt =====
-- A neighbour that died: `check_node_health`, `handle_node_death` and one round of the gossip loop of
-- src/server.rs. What the operating system and the network do meanwhile is a parameter.
pub mod Revived
use ouroboros_fs.Base.{
  ℕ, Bool, true, false, not, List, [], ◌∷◌, ◌++◌, Option, none, some, if◌then◌else◌, Result, ok,
  err,
}
use ouroboros_fs.Text.{Text, codes, trim, eq_ignore_ascii_case}
use ouroboros_fs.Text.Decimal.{decimal, parse_uint, max_u16}
use ouroboros_fs.Auth.Token.{bearer_value}
use ouroboros_fs.Node.{Node, get_next}
use ouroboros_fs.Node.Status.{alive, dead}
use ouroboros_fs.Node.Address.{port_str, host_of, address}
use ouroboros_fs.Node.Netmap.{update_node_status}
use ouroboros_fs.Node.Send.{Net, Sent, broadcast_netmap_update}
use ouroboros_fs.Protocol.Command.{Command}
use ouroboros_fs.Server.Heal.{share_data_with_new_node}

-- What a healing meets: the network before and after the new process listens, which connections to
-- that come about while data is shared, by their command, the line that answers
-- a PING within its time, whether a process can be spawned, whether it listens within 10 s, and two
-- variables of the environment.
pub record Surroundings : Type 0 where
  pub before : Net
  pub after : Net
  pub reaches : Text → Command → Bool
  pub pong : Text → Option Text
  pub spawns : Bool
  pub listens : Text → Bool
  pub path : Option Text
  pub rust_log : Option Text

-- A child process: its arguments and its environment.
pub record Process : Type 0 where
  pub arguments : List Text
  pub environment : List (Text × Text)

variable_of : Text → Option Text → List (Text × Text)
variable_of name none = []
variable_of name (some value) = (name, value) ∷ []

unfoldable pub respawn_command : Surroundings → Node → Text → Process
unfolding variable_of
respawn_command s n addr = record {
  arguments =
      codes "run"
      ∷ codes "--addr"
      ∷ addr
      ∷ codes "--wait-time"
      ∷ decimal n.gossip_interval
      ∷ codes "--storage-root"
      ∷ n.storage_root
      ∷ [];
  environment =
      variable_of (codes "PATH") s.path
      ++ (variable_of (codes "RUST_LOG") s.rust_log
          ++ variable_of (codes "OUROBOROS_AUTH_TOKEN") (bearer_value n.auth_token));
}

pub data HealError : Type 0 where
  not_spawned port_invalid not_listening : HealError
  not_shared not_forwarded : Text → HealError

-- What a healing leaves: the node, the connections it made, and the process it started.
pub record Healing : Type 0 where
  pub node : Node
  pub sent : List Sent
  pub spawned : List Process
  pub result : Result (Unit {0}) HealError

-- `Ok(())` is a PONG in any case of letters.
unfoldable pub check_node_health : Option Text → Bool
check_node_health none = false
check_node_health (some line) = eq_ignore_ascii_case (trim line) (codes "PONG")

failed : Node → List Sent → List Process → HealError → Healing
failed n sent spawned e = record { node = n; sent = sent; spawned = spawned; result = err e }

module _ (sha256 : List ℕ → List ℕ) (s : Surroundings) where
  -- Steps 5 and 6: the data is shared, and the status broadcast once more.
  shared : Node → List Sent → List Process → List Sent × Result (Unit {0}) Text → Healing
  unfolding failed
  shared n sent spawned (data_sent, err e) = failed n (sent ++ data_sent) spawned (not_shared e)
  shared n sent spawned (data_sent, ok done) =
      let told = broadcast_netmap_update s.after n in
      record {
        node = told.0;
        sent = sent ++ (data_sent ++ told.1);
        spawned = spawned;
        result = ok tt;
      }

  -- What follows the spawn: the wait, step 4, and the rest.
  respawned : Node → List Sent → Text → Text → List Process → Option ℕ → Healing
  unfolding failed shared
  respawned n sent dead_host dead_port spawned none = failed n sent spawned port_invalid
  respawned n sent dead_host dead_port spawned (some port) =
      let marked = update_node_status n dead_port alive in
      let addr = address dead_host dead_port in
      if s.listens (address dead_host (decimal port))
      then shared marked sent spawned
          (share_data_with_new_node sha256 (s.reaches addr) (s.after.reason addr) marked addr)
      else failed n sent spawned not_listening

  unfoldable pub handle_node_death : Node → Text → Healing
  unfolding failed respawned
  handle_node_death n dead_addr =
      let dead_port = port_str dead_addr in
      let dead_host = host_of dead_addr in
      let full_dead_addr = address dead_host dead_port in
      let told = broadcast_netmap_update s.before (update_node_status n dead_port dead) in
      if not n.respawn_dead
      then record { node = told.0; sent = told.1; spawned = []; result = ok tt }
      else if s.spawns
      then respawned told.0 told.1 dead_host dead_port (respawn_command s n full_dead_addr ∷ [])
          (parse_uint max_u16 dead_port)
      else failed told.0 told.1 [] not_spawned

  -- One round of `spawn_gossip_loop`, with the healing it starts. The loop itself never ends.
  unfoldable pub gossip_round : Node → Healing
  gossip_round n =
      let idle : Healing = record { node = n; sent = []; spawned = []; result = ok tt } in
      elim (get_next n) [
        | none ↦ idle
        | some next_addr ↦
            if check_node_health (s.pong next_addr) then idle else handle_node_death n next_addr
      ]
