-- ===== src/Lib.antt =====
-- ouroboros-fs keeps files in a ring of nodes. A node knows the next node of the ring; a file that is
-- pushed to one node is cut into one chunk for each node, and every owner sends a copy of its chunk
-- to the node before it. Nodes talk in lines of text over connections that begin with an AUTH line.
-- This library models the node's code and proves what the parts promise each other.
--
-- The parts, by file:
--   Base, Base/*: shared names, tests on numbers, lists measured by native numbers.
--   Text, Text/*: text as code points, and what the code uses of `str`: split, splitn, trim, decimal
--     numbers, `strip_prefix`, `rsplit_once`, UTF-8, and the lines of a stream of bytes.
--   Map, Map/*: `HashMap` as an association list, sorted keys, and the pieces of a joined text.
--   Protocol, Protocol/*: src/protocol.rs. Command is the enum of the same name, Parse holds
--     parse_line and the parsers of the namespaces, Filename holds validate_filename, and Wire the
--     line that stands for a command.
--   Auth, Auth/*: src/auth.rs. Hex and Hmac are the free functions, Token is AuthToken.
--   Node, Node/*: src/node.rs and src/node_status.rs. Node is the struct; its methods stand by what
--     they work on in Netmap, Topology, Tags, Walks and Send.
--   Server, Server/*: src/server.rs. Chunk cuts and names chunks; Disk writes and reads them, and
--     sweeps at the start; Store holds the handlers of single chunks; Push and Pull the two big
--     handlers of files; Control, Walk and Discover the handlers of the ring. Heal holds what a
--     respawned node is sent, Heal/Death check_node_health, handle_node_death and a round of
--     spawn_gossip_loop, and Heal/Walk the heal walk. Client dispatches a command, Client/Session is
--     handle_client, Accept the loop of serve_with_shutdown, and Bind the function bind.
--   Gateway, Gateway/*: src/gateway.rs. Http reads headers and writes responses; Ring connects to the
--     nodes; Status, Files, Upload, Download and Metrics hold the requests by what they ask for,
--     Stream the end of a pull; Routes puts them together for one client.
--   Launcher, Launcher/*: src/bin/main.rs. Settings holds the flags, the configuration and the
--     environment, Network the function set_network, Network/Hearing a process
--     that takes its line, and Network/Wired the ring that it leaves.
--   Examples, Examples/*: the theorems at concrete inputs.
--
-- How the code is read. A handler is a function of the node and its input; it returns an Outcome, a
-- Stored or a Pulled: the node afterwards, the bytes of the reply, and the connections it made.
-- Locks and atomics are fields that are passed on; counters wrap at 2^64. A directory is a map from
-- names to bytes. The network is a parameter: which addresses take a connection (Net, Links) and what
-- they answer (Ack, Fetch, Nodes), and so are the processes that start (Surroundings, Machine). SHA-256 is a parameter whose results have 32 bytes; the nonce of an AUTH
-- line is an argument. A text is a list of code points, and a `&str` slice that would split a
-- character is an outcome of its own (`panics`). Times are left out: a wait ends in a value that
-- says how it ended (Arrival, Ack).
--
-- A connection. The bytes that a client sends are a list. Each round of handle_client reads a line off
-- it, and a handler takes the body of its command off the rest; what other connections did to the
-- node in between is a parameter of the round (Round). A read of a pull at the gateway is a list of
-- blocks, as the reads may cut the bytes anywhere.
--
-- Fuel. The block loop of durably_write_chunk has one round for each byte asked for, and a round takes
-- a byte at least, so the loop ends by its own tests before the fuel does; the lemma copy_blocks_lem
-- shows it. The digits of a number n have n + 1 rounds, more than the number has digits. The loop of
-- handle_client, and the loops of the gateway that read lines, have a round for each byte and one more,
-- as a round takes a byte at least. The headers of a request have the 64 rounds of the source.
--
-- Not modelled: the sockets, the log, the signals of `run`, the pauses of the gossip loop and of the
-- tests for a listening port, the accept loop of the gateway, the parsers of flags and of TOML, the
-- process group and the clean-up of the launcher, the desktop client, and errors of the file system
-- itself. The order of iteration of a `HashMap` is that of the association list.
pub mod Auth
pub mod Base
pub mod Examples
pub mod Gateway
pub mod Launcher
pub mod Map
pub mod Node
pub mod Protocol
pub mod Server
pub mod Text
