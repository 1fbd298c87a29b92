-- ===== src/Server/Walk.antt =====
-- The topology walk: `handle_topology_walk`, `handle_topology_hop`, `handle_topology_done` and
-- `handle_topology_set` of src/server.rs.
pub mod Ring
pub mod Completes
use ouroboros_fs.Base.{
  ℕ, ◌≡◌, refl, Bool, true, false, not, List, [], ◌∷◌, ◌++◌, Option, none, some, if◌then◌else◌,
  Result, ok, err,
}
use ouroboros_fs.Text.{Text, codes, eq_text, is_empty}
use ouroboros_fs.Text.Pieces.{split}
use ouroboros_fs.Node.{Node, get_next}
use ouroboros_fs.Node.Address.{port_str}
use ouroboros_fs.Node.Topology.{append_edge, first_walk_history, set_topology_from_history}
use ouroboros_fs.Node.Walks.{make_walk_token, register_walk, finish_walk}
use ouroboros_fs.Node.Send.{
  Net, Sent, forward_topology_hop, send_topology_done, broadcast_topology_set,
}
use ouroboros_fs.Server.Outcome.{Outcome, replies, acknowledged}
use ouroboros_fs.Server.Control.{sent_by, woken_by}

-- How a walk that was started stands: it is answered at once, or waits for its token.
pub data Walking : Type 0 where
  answered : Outcome → Walking
  waiting : (token : Text) (n : Node) (sent : List Sent) → Walking

forwarded : Node → Text → Result (List Sent) Text → Walking
forwarded n token (ok sent) = waiting token n sent
forwarded n token (err e) = answered (replies n (codes "ERR forward failed: " ++ (e ++ codes "\n")))

start_walk : Net → Node → Text → Option Text → Walking
unfolding forwarded
start_walk net n token none = answered (replies n (codes "ERR no next hop set\n"))
start_walk net n token (some history) =
    forwarded n token (forward_topology_hop net n token n.port history)

-- The part before the wait. The waiter stays registered on both error branches.
unfoldable pub handle_topology_walk : Net → Node → Walking
unfolding start_walk
handle_topology_walk net n =
    let made = make_walk_token n in
    let registered = register_walk made.0 made.1 in
    start_walk net registered made.1 (first_walk_history registered)

-- What the waiter gets: the history, a channel that was dropped, or nothing for 30 s.
pub data Arrival : Type 0 where
  history_arrived : Text → Arrival
  channel_dropped timed_out : Arrival

segments : List Text → Text
segments [] = []
segments (seg ∷ segs) =
    let rest = segments segs in if is_empty seg then rest else seg ++ b'\n' ∷ rest

-- The part after the wait.
unfoldable pub walk_reply : Arrival → Text
unfolding segments
walk_reply (history_arrived history) = segments (split b';' history) ++ codes "OK\n"
walk_reply channel_dropped = codes "ERR walk canceled\n"
walk_reply timed_out = codes "ERR walk timeout\n"

unfoldable pub hop_sends : Net → Node → Text → Text → Text → Text → Result (List Sent) Text
hop_sends net n token start_addr history next_addr =
    let new_history = append_edge history n.port next_addr in
    if eq_text (port_str next_addr) (port_str start_addr)
    then send_topology_done net n start_addr token new_history
    else forward_topology_hop net n token start_addr new_history

hop : Net → Node → Text → Text → Text → Option Text → Outcome
hop net n token start_addr history none = acknowledged n []
hop net n token start_addr history (some next_addr) =
    acknowledged n (sent_by (hop_sends net n token start_addr history next_addr))

unfoldable pub handle_topology_hop : Net → Node → Text → Text → Text → Outcome
unfolding hop
handle_topology_hop net n token start_addr history = hop net n token start_addr history (get_next n)

-- The broadcast runs in a task of its own, on the node as it is then.
unfoldable pub handle_topology_done : Net → Node → Text → Text → Outcome
handle_topology_done net n token history =
    let finished = finish_walk n token in
    let updated = set_topology_from_history finished.0 history in
    record {
      node = updated;
      reply = codes "OK\n";
      sent = broadcast_topology_set net updated;
      woken = woken_by token finished.1;
    }

unfoldable pub handle_topology_set : Node → Text → Outcome
handle_topology_set n history = acknowledged (set_topology_from_history n history) []
