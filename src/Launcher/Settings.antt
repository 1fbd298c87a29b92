-- ===== src/Launcher/Settings.antt =====
-- The settings of a process: flags, the configuration file, the environment and the defaults, as `main`
-- of src/bin/main.rs puts them together. The parsers of clap and of TOML are not modelled: flags and
-- files are the records they fill.
use ouroboros_fs.Base.{
  ℕ, ◌*◌, not, ◌&&◌, List, [], ◌∷◌, ◌++◌, Option, none, some, ◌==◌, any, is_some, if◌then◌else◌,
  unwrap_or, Result, ok, err, ◌>>=◌,
}
use ouroboros_fs.Text.{Text, codes}
use ouroboros_fs.Text.Pieces.{split_once_str}
use ouroboros_fs.Text.Decimal.{decimal}
use ouroboros_fs.Auth.Token.{AuthToken, HexError, disabled, from_hex}
use ouroboros_fs.Node.{FsyncMode, no_sync, data_sync, full_sync}

pub data CliFsyncMode : Type 0 where
  cli_none cli_data cli_full : CliFsyncMode

-- `From<CliFsyncMode>`
unfoldable pub from_cli : CliFsyncMode → FsyncMode
from_cli cli_none = no_sync
from_cli cli_data = data_sync
from_cli cli_full = full_sync

-- What `run` may be given, by its flags or by the file.
pub record RunConfig : Type 0 where
  pub addr : Option Text
  pub wait_time : Option ℕ
  pub file_size : Option ℕ
  pub storage_root : Option Text
  pub fsync_mode : Option CliFsyncMode
  pub auth_token : Option Text
  pub idle_timeout : Option ℕ
  pub max_conns : Option ℕ
  pub shutdown_timeout : Option ℕ

abbrev pub nothing_set : RunConfig
nothing_set = record {
  addr = none;
  wait_time = none;
  file_size = none;
  storage_root = none;
  fsync_mode = none;
  auth_token = none;
  idle_timeout = none;
  max_conns = none;
  shutdown_timeout = none;
}

-- A file with a `[run]` table is read by it, another one by its top-level keys.
unfoldable pub load_run_config :
    (Text → Result RunConfig Text) → (Text → Result RunConfig Text) → Text → Result RunConfig Text
load_run_config from_table from_top raw =
    if is_some (split_once_str (codes "[run]") raw) then from_table raw else from_top raw

-- Two variables of the environment.
pub record Environment : Type 0 where
  pub port : Option Text
  pub auth_token : Option Text

-- `7001` or `127.0.0.1:7001`.
unfoldable pub normalize_addr : Text → Text
normalize_addr raw = if any (λ c. c == b':') raw then raw else codes "127.0.0.1:" ++ raw

unfoldable pub resolve_listen_addr : Environment → Option Text → Option ℕ → Text
resolve_listen_addr env (some addr) port = normalize_addr addr
resolve_listen_addr env none (some port) = codes "127.0.0.1:" ++ decimal port
resolve_listen_addr env none none = elim env.port [
  | none ↦ codes "127.0.0.1:9000"
  | some from_env ↦ normalize_addr from_env
]

-- `or`: the first that is set.
abbrev pub or {ℓ} : {A : Type ℓ} → Option A → Option A → Option A
or (some a) b = some a
or none b = b

loaded : Option Text → Result AuthToken HexError
loaded none = ok disabled
loaded (some hex) = from_hex hex

unfoldable pub resolve_auth_token : Environment → Option Text → Result AuthToken HexError
unfolding loaded
resolve_auth_token env flag = loaded (or flag env.auth_token)

-- What a node runs with. Durations are in milliseconds.
pub record Settings : Type 0 where
  pub bind_addr : Text
  pub gossip_interval : ℕ
  pub file_size : ℕ
  pub storage_root : Text
  pub fsync_mode : FsyncMode
  pub auth_token : AuthToken
  pub idle_timeout : ℕ
  pub max_conns : ℕ
  pub shutdown_timeout : ℕ

-- The flags first; then the file's address, unless a port was given; then the environment.
bind_text : Environment → RunConfig → Option ℕ → RunConfig → Text
bind_text env flags port cfg =
    if not (is_some flags.addr) && not (is_some port) && is_some cfg.addr
    then normalize_addr (unwrap_or cfg.addr [])
    else resolve_listen_addr env flags.addr port

unfoldable pub run_settings :
    Environment → RunConfig → Option ℕ → RunConfig → Result Settings HexError
unfolding bind_text
run_settings env flags port cfg =
    resolve_auth_token env (or flags.auth_token cfg.auth_token) >>= λ token. ok (record {
      bind_addr = bind_text env flags port cfg;
      gossip_interval = unwrap_or (or flags.wait_time cfg.wait_time) 5000;
      file_size = unwrap_or (or flags.file_size cfg.file_size) 1000000000;
      storage_root = unwrap_or (or flags.storage_root cfg.storage_root) (codes "nodes");
      fsync_mode = from_cli (unwrap_or (or flags.fsync_mode cfg.fsync_mode) cli_full);
      auth_token = token;
      idle_timeout = unwrap_or (or flags.idle_timeout cfg.idle_timeout) 60 * 1000;
      max_conns = unwrap_or (or flags.max_conns cfg.max_conns) 1024;
      shutdown_timeout = unwrap_or (or flags.shutdown_timeout cfg.shutdown_timeout) 30 * 1000;
    })

-- The gateway: where it listens, the nodes that it asks, and its token.
pub record GatewayConfig : Type 0 where
  pub listen : Option Text
  pub nodes : List Text
  pub auth_token : Option Text

pub data GatewayError : Type 0 where
  no_nodes : GatewayError
  bad_token : HexError → GatewayError

pub record GatewaySettings : Type 0 where
  pub listen : Text
  pub node_addrs : List Text
  pub auth_token : AuthToken

with_token : Text → List Text → Result AuthToken HexError → Result GatewaySettings GatewayError
with_token listen nodes (err e) = err (bad_token e)
with_token listen nodes (ok token) =
    ok (record { listen = listen; node_addrs = nodes; auth_token = token })

-- The nodes of the flags replace those of the file.
choose_nodes : List Text → List Text → List Text
choose_nodes [] nodes = nodes
choose_nodes (n ∷ ns) nodes = n ∷ ns

some_nodes : Text → Result AuthToken HexError → List Text → Result GatewaySettings GatewayError
unfolding with_token
some_nodes listen token [] = err no_nodes
some_nodes listen token (n ∷ ns) = with_token listen (n ∷ ns) token

unfoldable pub gateway_settings :
    Environment → GatewayConfig → GatewayConfig → Result GatewaySettings GatewayError
unfolding choose_nodes some_nodes
gateway_settings env flags cfg =
    some_nodes (unwrap_or (or flags.listen cfg.listen) (codes "127.0.0.1:8000"))
      (resolve_auth_token env (or flags.auth_token cfg.auth_token))
      (choose_nodes flags.nodes cfg.nodes)
