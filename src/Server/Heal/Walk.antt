-- ===== src/Server/Heal/Walk.antt =====
-- The heal walk: `handle_node_heal`, `handle_node_heal_hop` and `check_and_heal_neighbor` of
-- src/server.rs. Each node checks the next one and heals it before the walk goes on.
pub mod Reborn
pub mod Rounds
pub mod Steps
pub mod Lines
pub mod Completes
use ouroboros_fs.Base.{ℕ, List, [], Option, none, some, if◌then◌else◌, Result, ok, err}
use ouroboros_fs.Text.{Text, codes, eq_text}
use ouroboros_fs.Node.{Node, get_next}
use ouroboros_fs.Node.Address.{port_str}
use ouroboros_fs.Node.Walks.{make_walk_token, register_heal_walk}
use ouroboros_fs.Node.Send.{Net, Sent, send_to}
use ouroboros_fs.Protocol.Command.{node_heal_hop, node_heal_done}
use ouroboros_fs.Server.Heal.Death.{
  Surroundings, Process, HealError, not_forwarded, Healing, check_node_health, handle_node_death,
}

-- One step of the walk: the healing, if there was one, and the connection that carries the walk on.
pub record Step : Type 0 where
  pub node : Node
  pub healing : List Sent
  pub spawned : List Process
  pub forwarded : List Sent
  pub result : Result (Unit {0}) HealError

-- The connection that ends a step.
carried : Node → List Sent → List Process → Result (List Sent) Text → Step
carried n healing spawned (ok sent) = record {
  node = n;
  healing = healing;
  spawned = spawned;
  forwarded = sent;
  result = ok tt;
}
carried n healing spawned (err e) = record {
  node = n;
  healing = healing;
  spawned = spawned;
  forwarded = [];
  result = err (not_forwarded e);
}

-- A healing that failed stops the walk.
healed : Net → Text → Text → Text → Healing → Result (Unit {0}) HealError → Step
unfolding carried
healed net token start_addr next_addr h (err e) = record {
  node = h.node;
  healing = h.sent;
  spawned = h.spawned;
  forwarded = [];
  result = err e;
}
healed net token start_addr next_addr h (ok done) =
    carried h.node h.sent h.spawned (send_to net h.node next_addr (node_heal_hop token start_addr))

module _ (sha256 : List ℕ → List ℕ) (s : Surroundings) where
  unfoldable pub step_to : Node → Text → Text → Text → Step
  unfolding carried healed
  step_to n token start_addr next_addr =
      let h = handle_node_death sha256 s n next_addr in
      if eq_text (port_str next_addr) (port_str start_addr)
      then carried n [] [] (send_to s.before n start_addr (node_heal_done token))
      else if check_node_health (s.pong next_addr)
      then carried n [] [] (send_to s.before n next_addr (node_heal_hop token start_addr))
      else healed s.after token start_addr next_addr h h.result

  next_step : Node → Text → Text → Option Text → Step
  next_step n token start_addr none = record {
    node = n;
    healing = [];
    spawned = [];
    forwarded = [];
    result = ok tt;
  }
  next_step n token start_addr (some next_addr) = step_to n token start_addr next_addr

  unfoldable pub check_and_heal_neighbor : Node → Text → Text → Step
  unfolding next_step
  check_and_heal_neighbor n token start_addr = next_step n token start_addr (get_next n)

  -- The answer goes out at once; the step runs in a task of its own.
  unfoldable pub handle_node_heal_hop : Node → Text → Text → Text × Step
  handle_node_heal_hop n token start_addr =
      (codes "OK\n", check_and_heal_neighbor n token start_addr)

  -- The part before the wait: the token, and the first step of the node that waits for it.
  unfoldable pub handle_node_heal : Node → Text × Step
  handle_node_heal n =
      let made = make_walk_token n in
      let registered = register_heal_walk made.0 made.1 in
      (made.1, check_and_heal_neighbor registered made.1 registered.port)

-- What the waiter gets: the signal, a channel that was dropped, or nothing for 60 s.
pub data Signal : Type 0 where
  walk_done walk_dropped walk_late : Signal

-- The part after the wait.
unfoldable pub heal_reply : Signal → Text
heal_reply walk_done = codes "OK network healed\n"
heal_reply walk_dropped = codes "ERR heal walk canceled\n"
heal_reply walk_late = codes "ERR heal walk timed out\n"
