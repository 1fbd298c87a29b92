-- ===== src/Server/Client/Session.antt =====
-- The loop of `handle_client` (src/server.rs) over the bytes of one connection, and the handshake in
-- front of it. The i-th read meets the i-th round; the handshake has its own. A session out of fuel is
-- a case of its own.
pub mod Fuel
pub mod Guard
pub mod Requests
pub mod Admitted
use ouroboros_fs.Base.{
  ℕ, zero, suc, ◌+◌, Bool, true, false, not, ◌&&◌, List, [], ◌∷◌, ◌++◌, Option, none, some, ◌==◌,
  if◌then◌else◌, Result, ok, err, length,
}
use ouroboros_fs.Text.{Text, codes, as_bytes}
use ouroboros_fs.Text.Utf8.{read_until_newline, from_utf8}
use ouroboros_fs.Auth.Token.{is_enabled, Verdict, accepts, rejects, aborts, verify_auth_line}
use ouroboros_fs.Protocol.Command.{Command}
use ouroboros_fs.Protocol.Parse.{parse_line}
use ouroboros_fs.Node.{Node}
use ouroboros_fs.Node.Send.{Sent}
use ouroboros_fs.Server.Control.{handle_error}
use ouroboros_fs.Server.Heal.Death.{Process}
use ouroboros_fs.Server.Client.{
  Round, Handled, After, goes_on, breaks, fails, handle_command, by_outcome,
}

-- How a connection ends: closed in order, by an error that is logged, or by a panic.
pub data Ending : Type 0 where
  closed errored panicked starved : Ending

pub record Session : Type 0 where
  pub node : Node
  pub written : List ℕ
  pub sent : List Sent
  pub spawned : List Process
  pub ending : Ending

-- A session that ends here.
abbrev pub ends : Node → Text → Ending → Session
ends n reply ending = record {
  node = n;
  written = as_bytes reply;
  sent = [];
  spawned = [];
  ending = ending;
}

-- What one command did, in front of what the later ones did.
abbrev pub in_front : Handled → Session → Session
in_front h s = record {
  node = s.node;
  written = h.written ++ s.written;
  sent = h.sent ++ s.sent;
  spawned = h.spawned ++ s.spawned;
  ending = s.ending;
}

-- After a handler: the rest of the session, or its end.
unfoldable pub go_on : Handled → Session → After → Session
go_on h rest goes_on = in_front h rest
go_on h rest breaks = in_front h (ends h.node [] closed)
go_on h rest fails = in_front h (ends h.node [] errored)

module _ (sha256 : List ℕ → List ℕ) (world : ℕ → Round) where
  -- A line is parsed and matched with a handler; one that does not parse is answered.
  unfoldable pub handle_parsed : ℕ → Node → List ℕ → Result Command Text → Handled
  unfolding by_outcome
  handle_parsed i n reader (ok c) = handle_command sha256 (world i) n reader c
  handle_parsed i n reader (err e) = by_outcome goes_on reader (handle_error n e)

  -- A line that is not UTF-8 ends the connection.
  with_text : ℕ → Node → List ℕ → (ℕ → Node → List ℕ → Session) → Option Text → Session
  unfolding handle_parsed go_on
  with_text i n reader next none = ends n [] errored
  with_text i n reader next (some line) =
      let h = handle_parsed i n reader (parse_line line) in
      go_on h (next (i + 1) h.node h.unread) h.after

  -- The read of nothing is the end of the stream.
  with_line : ℕ → Node → (ℕ → Node → List ℕ → Session) → List ℕ × List ℕ → Session
  unfolding with_text
  with_line i n next ([], reader) = ends n [] closed
  with_line i n next (b ∷ line, reader) = with_text i n reader next (from_utf8 (b ∷ line))

  -- The `loop`: `fuel` rounds.
  unfoldable pub client_loop : ℕ → ℕ → Node → List ℕ → Session
  unfolding with_line
  client_loop zero i n reader = ends n [] starved
  client_loop (suc fuel) i n reader =
      let here = (world i).others n in
      if not (here.idle_timeout == 0) && (world i).late
      then ends here (codes "ERR idle timeout\n") closed
      else with_line i here (client_loop fuel) (read_until_newline reader)

  -- The handshake has checked its line, or found none.
  verified : Node → List ℕ → Verdict → Session
  verified n reader accepts = client_loop (length reader + 1) 1 n reader
  verified n reader rejects = ends n (codes "ERR auth required\n") closed
  verified n reader aborts = ends n [] panicked

  checked : Node → List ℕ → Option Text → Session
  unfolding verified
  checked n reader none = ends n [] errored
  checked n reader (some line) = verified n reader (verify_auth_line sha256 n.auth_token line)

  shaken : Node → List ℕ × List ℕ → Session
  unfolding checked verified
  shaken n ([], reader) = verified n reader rejects
  shaken n (b ∷ line, reader) = checked n reader (from_utf8 (b ∷ line))

  unfoldable pub handle_client : Node → List ℕ → Session
  unfolding shaken
  handle_client n reader =
      if is_enabled n.auth_token
      then if (world 0).late
        then ends n (codes "ERR auth timeout\n") closed
        else shaken n (read_until_newline reader)
      else client_loop (length reader + 1) 1 n reader
