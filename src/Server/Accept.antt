-- ===== src/Server/Accept.antt =====
-- The accept loop of `serve_with_shutdown` (src/server.rs) as a step relation: connections that come
-- and end, the permits they hold, the shutdown and the drain. A connection is its number.
pub mod Permits
use ouroboros_fs.Base.{
  ℕ, suc, ◌+◌, ◌<◌, ◌≤◌, ◌≡◌, Bool, true, false, not, ◌&&◌, List, [], ◌∷◌, ◌==◌, ltb, if◌then◌else◌,
  length,
}
use ouroboros_fs.Text.{Text, codes}

-- The loop, the drain behind it, and the end.
pub data Phase : Type 0 where
  accepting draining stopped : Phase

-- `handlers` are the tasks that run, each with its permit.
pub record Serving : Type 0 where
  pub phase : Phase
  pub handlers : List ℕ

abbrev pub opened : Serving
opened = record { phase = accepting; handlers = [] }

-- `try_acquire_owned`: without a limit there is no semaphore, and nothing to wait for.
unfoldable pub has_permit : ℕ → List ℕ → Bool
has_permit max_conns handlers = if max_conns == 0 then true else ltb (length handlers) max_conns

-- A connection is taken: it gets a task, or a line and its end.
unfoldable pub take_connection : ℕ → List ℕ → ℕ → List ℕ × Text
take_connection max_conns handlers conn =
    if has_permit max_conns handlers
    then (conn ∷ handlers, [])
    else (handlers, codes "ERR server busy\n")

-- A task that ends gives its permit back.
unfoldable pub finish_handler : ℕ → List ℕ → List ℕ
finish_handler conn [] = []
finish_handler conn (c ∷ handlers) =
    let rest = finish_handler conn handlers in if c == conn then handlers else c ∷ rest

pub data Event : Type 0 where
  connection_came connection_ended : ℕ → Event
  shutdown_fired accept_failed : Event
  drained drain_timed_out : Event

-- One step. The drain has a timeout only if `drain_timeout` is not zero.
pub data Step (max_conns drain_timeout : ℕ) : Serving → Event → Serving → Type 0 where
  takes :
      {handlers : List ℕ} (conn : ℕ)
      → Step max_conns drain_timeout
          (record { phase = accepting; handlers = handlers })
          (connection_came conn)
          (record { phase = accepting; handlers = (take_connection max_conns handlers conn).0 })
  ends :
      {phase : Phase} {handlers : List ℕ} (conn : ℕ)
      → Step max_conns drain_timeout
          (record { phase = phase; handlers = handlers })
          (connection_ended conn)
          (record { phase = phase; handlers = finish_handler conn handlers })
  shuts :
      {handlers : List ℕ}
      → Step max_conns drain_timeout
          (record { phase = accepting; handlers = handlers })
          shutdown_fired
          (record { phase = draining; handlers = handlers })
  breaks :
      {handlers : List ℕ}
      → Step max_conns drain_timeout
          (record { phase = accepting; handlers = handlers })
          accept_failed
          (record { phase = draining; handlers = handlers })
  drains :
      Step max_conns drain_timeout
        (record { phase = draining; handlers = [] })
        drained
        (record { phase = stopped; handlers = [] })
  aborts :
      {handlers : List ℕ}
      → (drain_timeout == 0) ≡ false
      → Step max_conns drain_timeout
          (record { phase = draining; handlers = handlers })
          drain_timed_out
          (record { phase = stopped; handlers = [] })

pub data Reach (max_conns drain_timeout : ℕ) : Serving → List Event → Serving → Type 0 where
  none_yet : {s : Serving} → Reach max_conns drain_timeout s [] s
  step :
      {a b c : Serving} {e : Event} {es : List Event}
      → Step max_conns drain_timeout a e b
      → Reach max_conns drain_timeout b es c
      → Reach max_conns drain_timeout a (e ∷ es) c
