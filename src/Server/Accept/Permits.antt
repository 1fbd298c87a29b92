-- ===== src/Server/Accept/Permits.antt =====
-- The permits of the accept loop of src/server.rs: how many connections are served at once.
use ouroboros_fs.Base.{ℕ, ◌≤◌, ◌<◌, ◌≡◌, refl, List, [], ◌∷◌, length, arith}
use ouroboros_fs.Server.Accept.{
  Phase, accepting, draining, stopped, Serving, opened, has_permit, take_connection, finish_handler,
  Event, Step, takes, ends, shuts, breaks, drains, aborts, Reach, none_yet, step,
}

finish_shrinks :
    (conn : ℕ) (handlers : List ℕ) → length (finish_handler conn handlers) ≤ length handlers
unfolding finish_handler
finish_shrinks conn [] = omega arith
finish_shrinks conn (c ∷ handlers) = ground (arith, finish_shrinks conn handlers)

abbrev pub IsIdle : Phase → List ℕ → Type 0
IsIdle stopped handlers = handlers ≡ []
IsIdle accepting handlers = Unit
IsIdle draining handlers = Unit

-- With a limit, no more tasks than it run; once stopped, none does.
pub record WithinLimit (max_conns : ℕ) (s : Serving) : Type 0 where
  pub limited : 0 < max_conns → length s.handlers ≤ max_conns
  pub idle_end : IsIdle s.phase s.handlers

module _ (max_conns drain_timeout : ℕ) where
  taken_limited :
      (handlers : List ℕ) (conn : ℕ)
      → (0 < max_conns → length handlers ≤ max_conns)
      → 0 < max_conns
      → length (take_connection max_conns handlers conn).0 ≤ max_conns
  unfolding take_connection has_permit
  taken_limited handlers conn h p = ground (arith, h p)

  finish_handler-IsIdle :
      (phase : Phase) (conn : ℕ) (handlers : List ℕ)
      → IsIdle phase handlers
      → IsIdle phase (finish_handler conn handlers)
  unfolding finish_handler
  finish_handler-IsIdle accepting conn handlers h = tt
  finish_handler-IsIdle draining conn handlers h = tt
  finish_handler-IsIdle stopped conn handlers h = rw h

  Step-WithinLimit :
      {a b : Serving} {e : Event}
      → Step max_conns drain_timeout a e b
      → WithinLimit max_conns a
      → WithinLimit max_conns b
  Step-WithinLimit (takes {handlers} conn) w = record {
    limited = taken_limited handlers conn w.limited;
    idle_end = tt;
  }
  Step-WithinLimit (ends {phase} {handlers} conn) w = record {
    limited = λ p. omega (arith, w.limited p, finish_shrinks conn handlers);
    idle_end = finish_handler-IsIdle phase conn handlers w.idle_end;
  }
  Step-WithinLimit shuts w = record { limited = w.limited; idle_end = tt }
  Step-WithinLimit breaks w = record { limited = w.limited; idle_end = tt }
  Step-WithinLimit drains w = record { limited = w.limited; idle_end = refl }
  Step-WithinLimit (aborts h) w = record { limited = λ p. omega arith; idle_end = refl }

  reached_within :
      {a b : Serving} {es : List Event}
      → Reach max_conns drain_timeout a es b
      → WithinLimit max_conns a
      → WithinLimit max_conns b
  reached_within none_yet w = w
  reached_within (step s r) w = reached_within r (Step-WithinLimit s w)

  -- After any order of connections, ends, failures and a shutdown, no more handlers run than a
  -- limit above zero allows, and none runs once the loop has stopped.
  pub Reach-WithinLimit :
      {s : Serving} {es : List Event}
      → Reach max_conns drain_timeout opened es s
      → WithinLimit max_conns s
  Reach-WithinLimit r = reached_within r (record { limited = λ p. omega arith; idle_end = tt })
