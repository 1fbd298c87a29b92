-- ===== src/Node/Address.antt =====
-- Addresses: `port_str` and `host_str` of src/node.rs, `host_of` of src/server.rs.
use ouroboros_fs.Base.{◌≡◌, refl, true, [], ◌∷◌, ◌++◌, ◌==◌, if◌then◌else◌, any, arith}
use ouroboros_fs.Text.{Text, codes, Lacks}
use ouroboros_fs.Text.Pieces.{split, split-append, last_or, last-split, item}

-- `addr.rsplit(':').next().unwrap_or(addr)`
unfoldable pub port_str : Text → Text
port_str addr = last_or (split b':' addr) addr

-- `addr.split(':').next()`: there always is a first piece.
unfoldable pub host_str : Text → Text
host_str addr = item (split b':' addr) 0

unfoldable pub host_of : Text → Text
unfolding host_str
host_of addr = if any (λ c. c == b':') addr then host_str addr else codes "127.0.0.1"

-- `format!("{}:{}", host, port)`
abbrev pub address : Text → Text → Text
address host port = host ++ b':' ∷ port

-- The port of an address, whatever the host (IPv6 with its colons included).
pub port_str-address : (host port : Text) → Lacks b':' port → port_str (address host port) ≡ port
unfolding port_str
port_str-address host port h = last-split b':' host port (address host port) h

pub any-colon : (host port : Text) → any (λ c. c == b':') (address host port) ≡ true
any-colon [] port = refl
any-colon (c ∷ host) port = ground (arith, any-colon host port)

pub host_str-address : (host port : Text) → Lacks b':' host → host_str (address host port) ≡ host
unfolding host_str
host_str-address host port h = rw (split-append b':' host port h)

pub host_of-address : (host port : Text) → Lacks b':' host → host_of (address host port) ≡ host
unfolding host_of
host_of-address host port h = rw (any-colon host port, split-append b':' host port h)
