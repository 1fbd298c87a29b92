-- ===== src/Server/Bind.antt =====
-- The start of a node: `bind` of src/server.rs. The socket is the operating system's: `local` is the
-- address that it gives. `version`, `content` and `backup` are what the node's directory holds.
use ouroboros_fs.Base.{ℕ, Bool, Option, Result, ok, ◌>>=◌}
use ouroboros_fs.Text.{Text}
use ouroboros_fs.Auth.Token.{AuthToken}
use ouroboros_fs.Node.{Node, Directory, FsyncMode, new}
use ouroboros_fs.Server.Disk.Janitor.{StorageError, enforce_storage_version, sweep_orphan_partials}

-- The node, and the text of its `VERSION` file.
pub record Bound : Type 0 where
  pub node : Node
  pub version : Text

unfoldable pub bind :
    Text
    → ℕ
    → ℕ
    → Text
    → Bool
    → FsyncMode
    → AuthToken
    → ℕ
    → ℕ
    → Option Text
    → Directory
    → Directory
    → Bool
    → Result Bound StorageError
bind local gossip_interval file_size storage_root respawn_dead fsync_mode auth_token idle_timeout
      max_conns version content backup forced =
    enforce_storage_version version content backup forced >>= λ written. ok (record {
      node =
          new local gossip_interval file_size storage_root respawn_dead fsync_mode auth_token
            idle_timeout max_conns (sweep_orphan_partials content) (sweep_orphan_partials backup);
      version = written;
    })
