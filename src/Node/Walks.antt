-- ===== src/Node/Walks.antt =====
-- Tokens and the waiters of a walk: `next_token`, `register_walk`, `finish_walk` and their
-- counterparts for the heal walk of src/node.rs.
pub mod Tokens
use ouroboros_fs.Base.{
  ℕ, ◌+◌, ◌%◌, ◌^◌, ◌≡◌, refl, Bool, true, false, [], ◌∷◌, ◌++◌, Option, none, some, is_some,
  if◌then◌else◌,
}
use ouroboros_fs.Text.{Text}
use ouroboros_fs.Text.Decimal.{decimal}
use ouroboros_fs.Map.{Map, get, insert, remove}
use ouroboros_fs.Node.{Node}

-- `format!("{}-{}", self.port, n)`
unfoldable pub token : Text → ℕ → Text
token port n = port ++ b'-' ∷ decimal n

-- `fetch_add` wraps around at 2^64.
unfoldable pub next_token : Node → Node × Text
next_token n =
    (record n { walk_counter = (n.walk_counter + 1) % 2 ^ 64 }, token n.port n.walk_counter)

unfoldable pub make_walk_token : Node → Node × Text
unfolding next_token
make_walk_token n = next_token n

unfoldable pub make_invest_token : Node → Node × Text
unfolding next_token
make_invest_token n = next_token n

unfoldable pub register_walk : Node → Text → Node
register_walk n t = record n { pending_walks = insert n.pending_walks t tt }

unfoldable pub register_heal_walk : Node → Text → Node
register_heal_walk n t = record n { pending_heals = insert n.pending_heals t tt }

-- The flag says whether a waiter was there; it is sent the history, and waits no more.
unfoldable pub finish_walk : Node → Text → Node × Bool
finish_walk n t =
    if is_some (get n.pending_walks t)
    then (record n { pending_walks = remove n.pending_walks t }, true)
    else (n, false)

unfoldable pub finish_heal_walk : Node → Text → Node × Bool
finish_heal_walk n t =
    if is_some (get n.pending_heals t)
    then (record n { pending_heals = remove n.pending_heals t }, true)
    else (n, false)
