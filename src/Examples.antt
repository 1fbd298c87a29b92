-- ===== src/Examples.antt =====
-- The theorems at concrete inputs: a ring of two nodes, a file of three bytes, the texts that the nodes
-- write, the clients of a node and of the gateway, and the surroundings that these examples share.
mod Ring
mod Texts
mod Disk
mod Secrets
mod Http
mod Client
mod Heal
mod Files
mod Launch
mod Download
use ouroboros_fs.Base.{
  ℕ, zero, suc, ◌<◌, ◌≡◌, refl, Bool, true, false, not, ◌&&◌, List, [], ◌∷◌, Option, none, some,
  ltb, ltb→lt, ◌==◌, ◌+◌, ◌%◌, All, all, replicate, length-replicate, arith, if◌then◌else◌,
}
use native.Mathlib.Nat.{mod-lt}
use ouroboros_fs.Text.{Text, codes, Free, eq_text}
use ouroboros_fs.Auth.Hex.RoundTrip.{AreBytes}
use ouroboros_fs.Auth.Hmac.{IsDigest}
use ouroboros_fs.Auth.Token.{disabled}
use ouroboros_fs.Node.{Node, no_sync, new}
use ouroboros_fs.Node.Send.{Net}
use ouroboros_fs.Text.Utf8.{AreScalars, is_scalar}
use ouroboros_fs.Protocol.Command.{node_status, file_list}
use ouroboros_fs.Protocol.Wire.{wire, body}
use ouroboros_fs.Server.Walk.{timed_out}
use ouroboros_fs.Server.Push.{Links, line}
use ouroboros_fs.Server.Pull.{Fetch}
use ouroboros_fs.Server.Heal.Death.{Surroundings}
use ouroboros_fs.Server.Heal.Walk.{walk_done}
use ouroboros_fs.Server.Client.{Round}
use ouroboros_fs.Server.Client.Session.Requests.{Request, IsRequest}

-- Predicates decided on closed lists.
pub free : (p : ℕ → Bool) (s : Text) → all (λ c. not (p c)) s ≡ true → Free p s
free p [] h = tt
free p (c ∷ s) h = (ground arith, free p s (ground arith))

pub holds : (p : ℕ → Bool) (s : Text) → all p s ≡ true → All (λ c. p c ≡ true) s
holds p [] h = tt
holds p (c ∷ s) h = (ground arith, holds p s (ground arith))

pub bytes : (s : List ℕ) → all (λ b. ltb b 256) s ≡ true → AreBytes s
bytes [] h = tt
bytes (b ∷ s) h = (ground arith, bytes s (ground arith))

-- A digest of 32 bytes: the sum of the bytes.
abbrev checksum : List ℕ → ℕ
checksum [] = 0
checksum (b ∷ s) = (b + checksum s) % 256

abbrev pub digest : List ℕ → List ℕ
digest m = replicate 32 (checksum m % 256)

replicated : (n b : ℕ) → b < 256 → AreBytes (replicate n b)
replicated zero b h = tt
replicated (suc n) b h = (h, replicated n b h)

pub digest-IsDigest : IsDigest digest
digest-IsDigest = record {
  digest_length = λ m. length-replicate 32 (checksum m % 256);
  digest_bytes = λ m. replicated 32 (checksum m % 256) (mod-lt (checksum m) (omega arith));
}

abbrev pub address_a : Text
address_a = codes "127.0.0.1:7000"

abbrev pub address_b : Text
address_b = codes "127.0.0.1:7001"

abbrev pub ring_topology : List (Text × Text)
ring_topology = (codes "7000", codes "7001") ∷ (codes "7001", codes "7000") ∷ []

abbrev pub node_at : Text → Text → Node
node_at port next = record {
  port = port;
  next_port = some next;
  pending_walks = [];
  walk_counter = 1;
  pending_heals = [];
  network_nodes = [];
  file_tags = [];
  gossip_interval = 0;
  file_size = 100;
  topology_map = ring_topology;
  storage_root = codes "data";
  content = [];
  backup = [];
  respawn_dead = false;
  fsync_mode = no_sync;
  auth_token = record { secret = none };
  idle_timeout = 0;
  max_conns = 0;
  netmap_broadcasts = 0;
  pushes_total = 0;
  pulls_total = 0;
  chunk_bytes_written_total = 0;
  chunk_bytes_read_total = 0;
}

abbrev pub node_a : Node
node_a = node_at address_a address_b

abbrev pub node_b : Node
node_b = node_at address_b address_a

abbrev pub all_up : Net
all_up = record { up = λ addr. true; reason = λ addr. [] }

-- A network in which every node answers its PING.
abbrev pub surroundings : Surroundings
surroundings = record {
  before = all_up;
  after = all_up;
  reaches = λ addr c. true;
  pong = λ addr. some (codes "PONG\n");
  spawns = true;
  listens = λ addr. true;
  path = none;
  rust_log = none;
}

abbrev pub world : ℕ → Round
world i = record {
  others = λ n. n;
  late = false;
  net = all_up;
  links = record {
    connects = λ addr. true;
    takes_header = λ addr. true;
    takes_body = λ addr. true;
    read_before = λ addr. 0;
    answers = λ addr. line (codes "OK\n");
  };
  fetch = record { content = λ addr chunk. none; backup = λ addr chunk. none };
  arrival = λ token. timed_out;
  surroundings = surroundings;
  signal = λ token. walk_done;
}

-- Two requests without a body, the second of which ends the session.
abbrev pub status_request : Request
status_request = record { command = node_status; payload = [] }

abbrev pub list_request : Request
list_request = record { command = file_list; payload = [] }

scalars : (s : Text) → all is_scalar s ≡ true → AreScalars s
scalars s h = holds is_scalar s h

pub status-IsRequest : IsRequest status_request
unfolding wire body
status-IsRequest = record {
  sendable = tt;
  scalars = scalars (codes "NODE STATUS\n") refl;
  framed = refl;
}

pub list-IsRequest : IsRequest list_request
unfolding wire body
list-IsRequest = record {
  sendable = tt;
  scalars = scalars (codes "FILE LIST\n") refl;
  framed = refl;
}
