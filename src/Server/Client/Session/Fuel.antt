-- ===== src/Server/Client/Session/Fuel.antt =====
-- The fuel of the loop of `handle_client` (src/server.rs): each round takes a line off the stream.
use ouroboros_fs.Base.{
  ℕ, zero, suc, ◌+◌, ◌<◌, ◌≢◌, not, ◌&&◌, List, [], ◌∷◌, Option, none, some, ◌==◌, length, arith,
  Bool-cases, inl, inr, Result, ok, err,
}
use ouroboros_fs.Text.{Text}
use ouroboros_fs.Text.Utf8.{read_until_newline, read_until_newline_shrinks, from_utf8}
use ouroboros_fs.Auth.Token.{is_enabled, Verdict, accepts, rejects, aborts, verify_auth_line}
use ouroboros_fs.Protocol.Command.{Command}
use ouroboros_fs.Protocol.Parse.{parse_line}
use ouroboros_fs.Node.{Node}
use ouroboros_fs.Server.Store.Unread.{Leaves}
use ouroboros_fs.Server.Client.{Round, Handled, After, goes_on, breaks, fails, by_outcome}
use ouroboros_fs.Server.Client.Unread.{handle_command-Leaves}
use ouroboros_fs.Server.Client.Session.{
  Session, starved, go_on, handle_parsed, with_text, with_line, client_loop, verified, checked,
  shaken, handle_client,
}

-- A session that came to an end of its own.
abbrev pub Ends : Session → Type 0
Ends s = s.ending ≢ starved

go_on-Ends : (h : Handled) (rest : Session) (a : After) → Ends rest → Ends (go_on h rest a)
unfolding go_on
go_on-Ends h rest goes_on e = e
go_on-Ends h rest breaks e = λ x. cc
go_on-Ends h rest fails e = λ x. cc

module _ (sha256 : List ℕ → List ℕ) (world : ℕ → Round) where
  parsed-Leaves :
      (i : ℕ) (n : Node) (reader : List ℕ) (r : Result Command Text)
      → Leaves reader (handle_parsed sha256 world i n reader r).unread
  unfolding handle_parsed by_outcome
  parsed-Leaves i n reader (ok c) = handle_command-Leaves sha256 (world i) n reader c
  parsed-Leaves i n reader (err e) = omega arith

  -- What the rest of the loop must do.
  abbrev Served : (ℕ → Node → List ℕ → Session) → List ℕ → Type 0
  Served next reader =
      (i : ℕ) (n : Node) (rest : List ℕ) → Leaves reader rest → Ends (next i n rest)

  text-Ends :
      (i : ℕ) (n : Node) (reader : List ℕ) (next : ℕ → Node → List ℕ → Session) (t : Option Text)
      → Served next reader
      → Ends (with_text sha256 world i n reader next t)
  unfolding with_text
  text-Ends i n reader next none h = λ x. cc
  text-Ends i n reader next (some line) h =
      let p = handle_parsed sha256 world i n reader (parse_line line) in
      go_on-Ends p _ p.after
        (h (i + 1) p.node p.unread (parsed-Leaves i n reader (parse_line line)))

  line-Ends :
      (i : ℕ) (n : Node) (next : ℕ → Node → List ℕ → Session) (l reader : List ℕ)
      → Served next reader
      → Ends (with_line sha256 world i n next (l, reader))
  unfolding with_line
  line-Ends i n next [] reader h = λ x. cc
  line-Ends i n next (b ∷ l) reader h = text-Ends i n reader next (from_utf8 (b ∷ l)) h

  round-Ends :
      (i : ℕ) (n : Node) (next : ℕ → Node → List ℕ → Session) (reader : List ℕ)
      → ((j : ℕ) (m : Node) (rest : List ℕ) → length rest < length reader → Ends (next j m rest))
      → Ends (with_line sha256 world i n next (read_until_newline reader))
  unfolding with_line read_until_newline
  round-Ends i n next [] h = λ x. cc
  round-Ends i n next (b ∷ bs) h =
      line-Ends i n next (read_until_newline (b ∷ bs)).0 (read_until_newline (b ∷ bs)).1
        (λ j m rest hr. h j m rest (omega (arith, hr, read_until_newline_shrinks b bs)))

  -- Fuel for every byte and one round more.
  client_loop-Ends :
      (fuel i : ℕ) (n : Node) (reader : List ℕ)
      → length reader < fuel
      → Ends (client_loop sha256 world fuel i n reader)
  unfolding client_loop
  client_loop-Ends zero i n reader h = absurd (omega arith)
  client_loop-Ends (suc fuel) i n reader h =
      let here = (world i).others n in
      elim (Bool-cases (not (here.idle_timeout == 0) && (world i).late)) [
        | inl e ↦ rw e (λ x. cc)
        | inr e ↦ rw e (
            round-Ends i here (client_loop sha256 world fuel) reader
              (λ j m rest hr. client_loop-Ends fuel j m rest (omega (arith, hr, h))))
      ]

  -- Fuel for every byte is enough.
  begun-Ends :
      (i : ℕ) (n : Node) (reader : List ℕ)
      → Ends (client_loop sha256 world (length reader + 1) i n reader)
  begun-Ends i n reader = client_loop-Ends (length reader + 1) i n reader (omega arith)

  verified-Ends :
      (n : Node) (reader : List ℕ) (v : Verdict) → Ends (verified sha256 world n reader v)
  unfolding verified
  verified-Ends n reader accepts = begun-Ends 1 n reader
  verified-Ends n reader rejects = λ x. cc
  verified-Ends n reader aborts = λ x. cc

  checked-Ends :
      (n : Node) (reader : List ℕ) (t : Option Text) → Ends (checked sha256 world n reader t)
  unfolding checked
  checked-Ends n reader none = λ x. cc
  checked-Ends n reader (some line) =
      verified-Ends n reader (verify_auth_line sha256 n.auth_token line)

  shaken-Ends : (n : Node) (l reader : List ℕ) → Ends (shaken sha256 world n (l, reader))
  unfolding shaken
  shaken-Ends n [] reader = verified-Ends n reader rejects
  shaken-Ends n (b ∷ l) reader = checked-Ends n reader (from_utf8 (b ∷ l))

  -- On every stream of bytes the session ends by itself, as each round of the loop takes a byte
  -- off the stream or ends it: the fuel of the bytes and one is enough.
  pub handle_client-Ends : (n : Node) (reader : List ℕ) → Ends (handle_client sha256 world n reader)
  unfolding handle_client
  handle_client-Ends n reader = elim (Bool-cases (is_enabled n.auth_token)) [
    | inl e ↦ elim (Bool-cases (world 0).late) [
      | inl l ↦ rw (e, l) (λ x. cc)
      | inr l ↦ rw (e, l) (shaken-Ends n _ _)
    ]
    | inr e ↦ rw e (begun-Ends 1 n reader)
  ]
