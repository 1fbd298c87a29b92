-- ===== src/Gateway/Ring.antt =====
-- The gateway's end of the ring: its state, `Gateway` of src/gateway.rs, and `connect_to_ring`. Which
-- nodes take a connection and what they answer until they close it is a parameter.
use ouroboros_fs.Base.{
  ℕ, Bool, List, [], ◌∷◌, ◌++◌, Option, none, some, ◌==◌, if◌then◌else◌, length,
}
use ouroboros_fs.Text.{Text, codes, as_bytes}
use ouroboros_fs.Auth.Token.{AuthToken, disabled}
use ouroboros_fs.Protocol.Command.{Command}
use ouroboros_fs.Protocol.Wire.{wire}

pub record Gateway : Type 0 where
  pub node_addrs : List Text
  pub auth_token : AuthToken

unfoldable pub new : List Text → Gateway
new node_addrs = record { node_addrs = node_addrs; auth_token = disabled }

unfoldable pub with_auth : List Text → AuthToken → Gateway
with_auth node_addrs auth_token = record { node_addrs = node_addrs; auth_token = auth_token }

-- The nodes: whether one takes a connection and its AUTH line, the blocks with which one answers the
-- bytes sent to it, and whether it does so in the time that the gateway gives it.
pub record Nodes : Type 0 where
  pub connects : Text → Bool
  pub answers : Text → List ℕ → List (List ℕ)
  pub prompt : Text → Bool

-- A connection of the gateway: the bytes behind the AUTH line of its token.
pub record Contact : Type 0 where
  pub to : Text
  pub token : AuthToken
  pub request : List ℕ

abbrev pub asks : Gateway → Text → List ℕ → Contact
asks g to request = record { to = to; token = g.auth_token; request = request }

-- The bytes of a command, with what follows it.
abbrev pub command_bytes : Command → List ℕ → List ℕ
command_bytes c payload = as_bytes (wire c) ++ payload

-- The first address that takes a connection.
unfoldable pub connect_to_ring : Nodes → List Text → Option Text
connect_to_ring nodes [] = none
connect_to_ring nodes (addr ∷ addrs) =
    let rest = connect_to_ring nodes addrs in if nodes.connects addr then some addr else rest

abbrev pub unreachable : Text
unreachable = codes "Could not connect to any node in the ring"

-- All bytes of an answer: an empty block is the end.
unfoldable pub joined : List (List ℕ) → List ℕ
joined [] = []
joined (block ∷ blocks) =
    let rest = joined blocks in if length block == 0 then [] else block ++ rest
