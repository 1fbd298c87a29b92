-- ===== src/Server/Heal.antt =====
-- What a node sends to a neighbour that it respawned: `share_data_with_new_node` and
-- `anti_entropy_refill_successor` of src/server.rs. Failed pushes of a chunk are logged only.
pub mod Shared
pub mod Death
pub mod Walk
pub mod Refill
pub mod Restored
use ouroboros_fs.Base.{
  ℕ, ◌≡◌, refl, Bool, true, false, List, [], ◌∷◌, ◌++◌, map, Option, none, some, if◌then◌else◌,
  length, Result, ok, err,
}
use ouroboros_fs.Text.{Text, is_empty}
use ouroboros_fs.Node.{Node, Directory}
use ouroboros_fs.Node.Address.{port_str, host_of, address}
use ouroboros_fs.Node.Netmap.{get_network_nodes_entries}
use ouroboros_fs.Node.Topology.{get_topology_history, get_next_for_node}
use ouroboros_fs.Node.Tags.{get_file_tags_entries}
use ouroboros_fs.Node.Send.{Sent, message}
use ouroboros_fs.Protocol.Command.{
  Command, netmap_set, topology_set, file_tags_set, node_next, file_content_push,
}
use ouroboros_fs.Server.Disk.{IoError, open_chunk_verified}
use ouroboros_fs.Server.Disk.Janitor.{is_partial}

-- A line that is left out when there is nothing to say.
unless_empty : Text → Command → List Command
unless_empty [] c = []
unless_empty (x ∷ t) c = c ∷ []

next_command : Text → Option Text → List Command
next_command host none = []
next_command host (some port) = node_next (address host port) ∷ []

-- The four texts of a node's state, in the order in which they are sent.
unfoldable pub state_commands : Text → Text → Text → Text → Option Text → List Command
unfolding unless_empty next_command
state_commands entries history tags host next =
    netmap_set entries
    ∷ (unless_empty history (topology_set history)
        ++ (unless_empty tags (file_tags_set tags) ++ next_command host next))

unfoldable pub shared_commands : Node → Text → List Command
shared_commands n new_node_addr =
    state_commands (get_network_nodes_entries n) (get_topology_history n) (get_file_tags_entries n)
      (host_of n.port) (get_next_for_node n (port_str new_node_addr))

-- One connection for each text, as long as they come about.
share_lines : (Command → Bool) → Node → Text → List Command → List Sent × Bool
share_lines reaches n addr [] = ([], true)
share_lines reaches n addr (c ∷ cs) =
    let rest = share_lines reaches n addr cs in
    if reaches c then (message n addr c ∷ rest.0, rest.1) else ([], false)

-- The pushes of a refill that come about; the others are logged and passed over.
taken : (Command → Bool) → List Sent → List Sent
taken reaches [] = []
taken reaches (x ∷ xs) = let rest = taken reaches xs in if reaches x.command then x ∷ rest else rest

module _ (sha256 : List ℕ → List ℕ) where
  push_content : Node → Text → Text → Result (List ℕ) IoError → List Sent
  push_content n addr name (err e) = []
  push_content n addr name (ok body) =
      record {
        to = addr;
        token = n.auth_token;
        command = file_content_push name (length body);
        payload = body;
      }
      ∷ []

  refill_from : Node → Text → Directory → Directory → List Sent
  unfolding push_content
  refill_from n addr dir [] = []
  refill_from n addr dir ((name, bytes) ∷ files) =
      let rest = refill_from n addr dir files in
      if is_partial name
      then rest
      else push_content n addr name (open_chunk_verified sha256 dir name) ++ rest

  unfoldable pub anti_entropy_refill_successor : Node → Text → List Sent
  unfolding refill_from
  anti_entropy_refill_successor n addr = refill_from n addr n.backup n.backup

  -- Behind the four texts, the refill. A connection of the texts that fails ends the sharing.
  after_lines :
      (Command → Bool) → Text → Node → Text → List Sent × Bool → List Sent × Result (Unit {0}) Text
  unfolding taken
  after_lines reaches reason n addr (sent, true) =
      (sent ++ taken reaches (anti_entropy_refill_successor n addr), ok tt)
  after_lines reaches reason n addr (sent, false) = (sent, err reason)

  -- `reaches` tells which of the connections come about, by the command that they carry, and
  -- `reason` is the error of one that does not.
  unfoldable pub share_data_with_new_node :
      (Command → Bool) → Text → Node → Text → List Sent × Result (Unit {0}) Text
  unfolding after_lines share_lines
  share_data_with_new_node reaches reason n addr =
      after_lines reaches reason n addr (share_lines reaches n addr (shared_commands n addr))
