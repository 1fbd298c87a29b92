-- ===== src/Launcher/Network/Process.antt =====
-- The processes that `set_network` (src/bin/main.rs) starts, by their addresses, which have the host and
-- a port each.
use mathlib.Core.Option.{some-injective}
use ouroboros_fs.Base.{
  ℕ, ◌≤◌, ◌≡◌, ◌≢◌, refl, sym, ap, ◌∙◌, true, false, List, [], ◌∷◌, ◌++◌, none, some, ==_refl,
  if◌then◌else◌, All-mono, arith, Bool, any, Option, ok, Result, ◌==◌, Bool-cases, inl, inr,
}
use ouroboros_fs.Text.{Text, codes, eq_text, eq_text_sound, Lacks}
use ouroboros_fs.Text.Decimal.{decimal, decimal-AllDigits, parse_uint, parse_uint-decimal, max_u64}
use ouroboros_fs.Auth.Token.{disabled}
use ouroboros_fs.Auth.Token.{HexError}
use ouroboros_fs.Text.{as_bytes, is_whitespace, Free}
use ouroboros_fs.Text.Utf8.{AreScalars}
use ouroboros_fs.Base.{err, List}
use ouroboros_fs.Protocol.Command.{node_next}
use ouroboros_fs.Protocol.Wire.{wire}
use ouroboros_fs.Server.Client.{Round}
use ouroboros_fs.Server.Client.Session.{handle_client}
use ouroboros_fs.Node.{Node, Directory, full_sync, new}
use ouroboros_fs.Server.Bind.{Bound, bind}
use ouroboros_fs.Server.Disk.Janitor.{StorageError, enforce_storage_version, sweep_orphan_partials}
use ouroboros_fs.Launcher.Settings.{
  RunConfig, nothing_set, Environment, Settings, run_settings, resolve_auth_token,
  resolve_listen_addr, normalize_addr, from_cli,
}
use ouroboros_fs.Node.Topology.RoundTrip.{IsEnd}
use ouroboros_fs.Protocol.Sendable.{decimal-IsField}
use ouroboros_fs.Server.Control.{handle_node_next}
use ouroboros_fs.Server.Walk.Ring.{Cluster}
use ouroboros_fs.Node.Netmap.RoundTrip.{IsPortKey}

-- `run` of src/server.rs up to its loop, on an address that the socket gets as it is asked for.
unfoldable pub run :
    Settings → Option Text → Directory → Directory → Bool → Result Bound StorageError
run s =
    bind s.bind_addr s.gossip_interval s.file_size s.storage_root true s.fsync_mode s.auth_token
      s.idle_timeout s.max_conns

-- The settings of a process of the network: the flags of the launcher, and the defaults.
abbrev child_settings : ℕ → ℕ → Text → Settings
child_settings wait_time max_file_size addr = record {
  bind_addr = addr;
  gossip_interval = wait_time;
  file_size = max_file_size;
  storage_root = codes "nodes";
  fsync_mode = full_sync;
  auth_token = disabled;
  idle_timeout = 60000;
  max_conns = 1024;
  shutdown_timeout = 30000;
}

-- The flags with which `set_network` starts a process.
abbrev child_flags : ℕ → ℕ → Text → RunConfig
child_flags wait_time max_file_size addr = record nothing_set {
  addr = some addr;
  wait_time = some wait_time;
  file_size = some max_file_size;
}

-- What a process finds in the directory of its port, and whether `OUROBOROS_FORCE_V1` is set.
pub record Disk : Type 0 where
  pub version : Option Text
  pub content : Directory
  pub backup : Directory
  pub forced : Bool

bound_node : Result Bound StorageError → Option Node
bound_node (ok b) = some b.node
bound_node (err e) = none

run_child : Disk → Result Settings HexError → Option Node
unfolding bound_node
run_child d (ok s) = bound_node (run s d.version d.content d.backup d.forced)
run_child d (err e) = none

-- A process of the network, which inherits the environment of the launcher: its node, or none if it
-- ends at once.
unfoldable pub child_node : Environment → (Text → Disk) → ℕ → ℕ → Text → Option Node
unfolding run_child
child_node env disks wait_time max_file_size addr =
    run_child (disks addr)
      (run_settings env (child_flags wait_time max_file_size addr) none nothing_set)

module _ (sha256 : List ℕ → List ℕ) (world : ℕ → Round) where
  -- A node after the connection of `send_node_next`, which sends the one line and no AUTH line.
  unfoldable pub told_by : Text → Option Node → Option Node
  told_by next none = none
  told_by next (some n) =
      some (handle_client sha256 world n (as_bytes (wire (node_next next)))).node

  unfoldable pub told_node : Environment → (Text → Disk) → ℕ → ℕ → Text × Text → Option Node
  unfolding told_by
  told_node env disks wait_time max_file_size (this, next) =
      told_by next (child_node env disks wait_time max_file_size this)

-- Without a token in the environment, the flags give the settings.
run_settings-child :
    (env : Environment) (wait_time max_file_size : ℕ) (addr : Text)
    → env.auth_token ≡ none
    → any (λ c. c == b':') addr ≡ true
    → run_settings env (child_flags wait_time max_file_size addr) none nothing_set
      ≡ ok (child_settings wait_time max_file_size addr)
unfolding run_settings resolve_auth_token resolve_listen_addr normalize_addr from_cli
run_settings-child env wait_time max_file_size addr e c = rw (e, c) refl

-- The marker of a directory is one that the process accepts.
abbrev pub Accepts : Disk → Type 0
Accepts d = (v : Text) × (enforce_storage_version d.version d.content d.backup d.forced ≡ ok v)

-- The node of a process without a token, and after it took its next hop.
abbrev pub plain_child : Disk → ℕ → ℕ → Text → Node
plain_child d wait_time max_file_size addr =
    new addr wait_time max_file_size (codes "nodes") true full_sync disabled 60000 1024
      (sweep_orphan_partials d.content) (sweep_orphan_partials d.backup)

unfoldable pub wired_node : (Text → Disk) → ℕ → ℕ → Text × Text → Node
wired_node disks wait_time max_file_size (this, next) =
    (handle_node_next (plain_child (disks this) wait_time max_file_size this) next).node

plain_runs :
    (d : Disk) (wait_time max_file_size : ℕ) (addr : Text)
    → Accepts d
    → run_child d (ok (child_settings wait_time max_file_size addr))
      ≡ some (plain_child d wait_time max_file_size addr)
unfolding run_child run bind bound_node
plain_runs d wait_time max_file_size addr (v, a) = rw a

pub child_node_lem :
    (env : Environment) (disks : Text → Disk) (wait_time max_file_size : ℕ) (addr : Text)
    → env.auth_token ≡ none
    → any (λ c. c == b':') addr ≡ true
    → Accepts (disks addr)
    → child_node env disks wait_time max_file_size addr
      ≡ some (plain_child (disks addr) wait_time max_file_size addr)
unfolding child_node
child_node_lem env disks wait_time max_file_size addr e c a =
    ap (run_child (disks addr)) (run_settings-child env wait_time max_file_size addr e c)
    ∙ plain_runs (disks addr) wait_time max_file_size addr a

-- A host that can stand in a line.
pub record IsHost (host : Text) : Type 0 where
  pub plain : Free is_whitespace host
  pub scalars : AreScalars host

-- Who listens at an address.
unfoldable pub listener : List Node → Cluster
listener [] addr = none
listener (n ∷ ns) addr = if eq_text n.port addr then some n else listener ns addr

pub eq_text-append : (a s t : Text) → eq_text (a ++ s) (a ++ t) ≡ eq_text s t
eq_text-append [] s t = refl
eq_text-append (c ∷ a) s t = rw (==_refl c) (eq_text-append a s t)

pub decimal_apart :
    (a b : ℕ) → a ≤ max_u64 → b ≤ max_u64 → (a ≢ b) → eq_text (decimal a) (decimal b) ≡ false
decimal_apart a b ha hb ne = elim (Bool-cases (eq_text (decimal a) (decimal b))) [
  | inl e ↦
      let same : some a ≡ some b =
        sym (parse_uint-decimal max_u64 a ha)
        ∙ ap (parse_uint max_u64) (eq_text_sound (decimal a) (decimal b) e)
        ∙ parse_uint-decimal max_u64 b hb in
      absurd (ne (some-injective _ _ same))
  | inr e ↦ e
]

pub decimal-colon : (n : ℕ) → Lacks b':' (decimal n)
decimal-colon n = All-mono (decimal n) (λ c e. ground arith) (decimal-AllDigits n)

pub decimal-IsEnd : (n : ℕ) → IsEnd (decimal n)
decimal-IsEnd n = record {
  no_dash = All-mono (decimal n) (λ c e. ground arith) (decimal-AllDigits n);
  no_semicolon = All-mono (decimal n) (λ c e. ground arith) (decimal-AllDigits n);
}

pub decimal-IsPortKey : (n : ℕ) → IsPortKey (decimal n)
decimal-IsPortKey n = record {
  plain = (decimal-IsField n).plain;
  present = (decimal-IsField n).present;
  no_comma = All-mono (decimal n) (λ c e. ground arith) (decimal-AllDigits n);
  no_equals = All-mono (decimal n) (λ c e. ground arith) (decimal-AllDigits n);
}
