-- ===== src/Server/Discover.antt =====
-- The netmap handlers of src/server.rs: NETMAP DISCOVER, HOP, DONE, SET and GET.
pub mod Ring
pub mod Completes
use ouroboros_fs.Base.{List, [], ◌∷◌, ◌++◌, Option, none, some, if◌then◌else◌, Result, ok, err}
use ouroboros_fs.Text.{Text, codes, eq_text}
use ouroboros_fs.Node.{Node, get_next}
use ouroboros_fs.Node.Address.{port_str}
use ouroboros_fs.Node.Netmap.{
  entries_with_self, set_network_nodes_from_entries, get_network_nodes_lines,
}
use ouroboros_fs.Node.Walks.{make_invest_token}
use ouroboros_fs.Node.Send.{Net, Sent, forward_netmap_hop, send_netmap_done, broadcast_netmap}
use ouroboros_fs.Server.Outcome.{Outcome, replies, acknowledged}
use ouroboros_fs.Server.Control.{sent_by}

announced : Node → Result (List Sent) Text → Outcome
announced n (ok sent) = acknowledged n sent
announced n (err e) = replies n (codes "ERR forward failed: " ++ (e ++ codes "\n"))

discover : Net → Node → Text → Option Text → Outcome
unfolding announced
discover net n token none = replies n (codes "ERR no next hop set\n")
discover net n token (some next) =
    announced n (forward_netmap_hop net n token n.port (port_str n.port ++ codes "=Alive"))

unfoldable pub handle_netmap_discover : Net → Node → Outcome
unfolding discover
handle_netmap_discover net n =
    let made = make_invest_token n in discover net made.0 made.1 (get_next made.0)

unfoldable pub netmap_hop_sends : Net → Node → Text → Text → Text → Text → Result (List Sent) Text
netmap_hop_sends net n token start_addr entries next_addr =
    let new_entries = entries_with_self n entries in
    if eq_text (port_str next_addr) (port_str start_addr)
    then send_netmap_done net n start_addr token new_entries
    else forward_netmap_hop net n token start_addr new_entries

hop : Net → Node → Text → Text → Text → Option Text → Outcome
hop net n token start_addr entries none = acknowledged n []
hop net n token start_addr entries (some next_addr) =
    acknowledged n (sent_by (netmap_hop_sends net n token start_addr entries next_addr))

unfoldable pub handle_netmap_hop : Net → Node → Text → Text → Text → Outcome
unfolding hop
handle_netmap_hop net n token start_addr entries = hop net n token start_addr entries (get_next n)

unfoldable pub handle_netmap_done : Net → Node → Text → Text → Outcome
handle_netmap_done net n token entries =
    let updated = set_network_nodes_from_entries n entries in
    acknowledged updated (broadcast_netmap net updated entries)

unfoldable pub handle_netmap_set : Node → Text → Outcome
handle_netmap_set n entries = acknowledged (set_network_nodes_from_entries n entries) []

lines_reply : List Text → Text
lines_reply [] = []
lines_reply (l ∷ ls) = l ++ b'\n' ∷ lines_reply ls

netmap_reply : List Text → Text
unfolding lines_reply
netmap_reply [] = codes "(empty)\nOK\n"
netmap_reply (l ∷ ls) = lines_reply (l ∷ ls) ++ codes "OK\n"

unfoldable pub handle_netmap_get : Node → Outcome
unfolding netmap_reply
handle_netmap_get n = replies n (netmap_reply (get_network_nodes_lines n))
