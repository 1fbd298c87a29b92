-- ===== src/Launcher/Network.antt =====
-- `set_network` of src/bin/main.rs: the processes of a development network, and the wiring of their
-- ring. The operating system and the nodes' answers are a parameter; the process group and the cleanup
-- are left out. Ports are `u16`, whose sums wrap around in a release build.
pub mod Process
pub mod Hearing
pub mod Told
pub mod Wired
use ouroboros_fs.Base.{
  ℕ, zero, suc, ◌+◌, ◌%◌, ◌^◌, Bool, true, not, ◌||◌, List, [], ◌∷◌, map, Option, none, some, ◌==◌,
  if◌then◌else◌, is_some, Result, ok, err,
}
use ouroboros_fs.Text.{Text, codes, eq_text, trim, to_ascii_uppercase, strip_prefix}
use ouroboros_fs.Text.Decimal.{decimal}
use ouroboros_fs.Node.Address.{address}
use ouroboros_fs.Protocol.Command.{Command, netmap_discover, topology_walk}
use ouroboros_fs.Gateway.Ring.{Gateway, new}

-- What the launcher meets: the processes that start, the ports that listen within 5 s, the
-- connections, and the line that answers NODE NEXT within 150 ms.
pub record Machine : Type 0 where
  pub spawns : Text → Bool
  pub listens : Text → Bool
  pub connects : Text → Bool
  pub acknowledges : Text → Option Text

pub data LaunchError : Type 0 where
  not_spawned not_listening unreachable : Text → LaunchError
  bad_ack : (addr line : Text) → LaunchError

unfoldable pub port_at : ℕ → ℕ → ℕ
port_at base i = (base + i) % 2 ^ 16

unfoldable pub next_port : ℕ → ℕ → ℕ → ℕ
next_port base nodes i = if i + 1 == nodes then base else (base + i + 1) % 2 ^ 16

abbrev pub addr_of : Text → ℕ → Text
addr_of host port = address host (decimal port)

-- The addresses of `k` nodes from the i-th on.
unfoldable pub node_addrs : Text → ℕ → ℕ → ℕ → List Text
unfolding port_at
node_addrs host base i zero = []
node_addrs host base i (suc k) = addr_of host (port_at base i) ∷ node_addrs host base (i + 1) k

-- Who is told its next hop, and which.
unfoldable pub wiring : Text → ℕ → ℕ → ℕ → ℕ → List (Text × Text)
unfolding port_at next_port
wiring host base nodes i zero = []
wiring host base nodes i (suc k) =
    (addr_of host (port_at base i), addr_of host (next_port base nodes i))
    ∷ wiring host base nodes (i + 1) k

unfoldable pub child_arguments : ℕ → ℕ → Text → List Text
child_arguments wait_time max_file_size addr =
    codes "run"
    ∷ codes "--addr"
    ∷ addr
    ∷ codes "--wait-time"
    ∷ decimal wait_time
    ∷ codes "--file-size"
    ∷ decimal max_file_size
    ∷ []

-- `OK` or `OK <anything>`; no answer in time counts as one.
unfoldable pub accepts_ack : Option Text → Bool
accepts_ack none = true
accepts_ack (some line) =
    let upper = to_ascii_uppercase (trim line) in
    eq_text upper (codes "OK") || is_some (strip_prefix (codes "OK ") upper)

line_of : Option Text → Text
line_of none = []
line_of (some line) = line

send_node_next : Machine → Text → Result (Unit {0}) LaunchError
unfolding line_of
send_node_next m addr =
    if not (m.connects addr)
    then err (unreachable addr)
    else if accepts_ack (m.acknowledges addr)
    then ok tt
    else err (bad_ack addr (line_of (m.acknowledges addr)))

-- The loops stop at the first error.
first_failing : (Text → Bool) → (Text → LaunchError) → List Text → Option LaunchError
first_failing test fail [] = none
first_failing test fail (a ∷ rest_addrs) =
    let rest = first_failing test fail rest_addrs in if test a then rest else some (fail a)

-- The nodes that were told their next hop, and the error that stopped the loop.
wire_after :
    Text × Text
    → List (Text × Text) × Option LaunchError
    → Result (Unit {0}) LaunchError
    → List (Text × Text) × Option LaunchError
wire_after e rest (ok done) = (e ∷ rest.0, rest.1)
wire_after e rest (err f) = ([], some f)

unfoldable pub wire_all : Machine → List (Text × Text) → List (Text × Text) × Option LaunchError
unfolding send_node_next wire_after
wire_all m [] = ([], none)
wire_all m ((this, next) ∷ es) = wire_after (this, next) (wire_all m es) (send_node_next m this)

-- A network: the commands of its processes, the next hops that were set, the gateway and its address,
-- and the commands that went to the first node.
pub record Launched : Type 0 where
  pub commands : List (List Text)
  pub wired : List (Text × Text)
  pub gateway : Option (Gateway × Text)
  pub asked : List (Text × Command)

gateway_for : Text → List Text → Option ℕ → Option (Gateway × Text)
gateway_for host addrs none = none
gateway_for host addrs (some port) = some (new addrs, addr_of host port)

-- The investigation and the walk start at the first node; a failure to start one is logged only.
start_rounds : Machine → Text → List (Text × Command)
start_rounds m addr =
    if m.connects addr then (addr, netmap_discover) ∷ (addr, topology_walk) ∷ [] else []

finish_launch :
    Machine
    → Text
    → Text
    → List Text
    → List (List Text)
    → Option ℕ
    → List (Text × Text) × Option LaunchError
    → Result Launched LaunchError
unfolding gateway_for start_rounds
finish_launch m host start addrs commands dns_port (wired, some e) = err e
finish_launch m host start addrs commands dns_port (wired, none) = ok (record {
  commands = commands;
  wired = wired;
  gateway = gateway_for host addrs dns_port;
  asked = start_rounds m start;
})

unfoldable pub set_network : Machine → ℕ → ℕ → Text → ℕ → Option ℕ → ℕ → Result Launched LaunchError
unfolding first_failing finish_launch
set_network m nodes base_port host wait_time dns_port max_file_size =
    let addrs = node_addrs host base_port 0 nodes in
    let commands = map (child_arguments wait_time max_file_size) addrs in
    let empty : Launched = record { commands = []; wired = []; gateway = none; asked = [] } in
    if nodes == 0 then ok empty else elim (first_failing m.spawns not_spawned addrs) [
      | some e ↦ err e
      | none ↦ elim (first_failing m.listens not_listening addrs) [
        | some e ↦ err e
        | none ↦
            finish_launch m host (addr_of host base_port) addrs commands dns_port
              (wire_all m (wiring host base_port nodes 0 nodes))
      ]
    ]
