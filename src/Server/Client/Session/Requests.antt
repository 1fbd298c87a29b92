-- ===== src/Server/Client/Session/Requests.antt =====
-- `handle_client` (src/server.rs) against its specification: the handlers of the commands, in the order
-- of the requests, each with its own body.
use ouroboros_fs.Base.{
  ℕ, zero, suc, ◌+◌, ◌<◌, ◌≡◌, ◌≢◌, refl, ap, ◌∙◌, Bool, true, false, not, ◌&&◌, List, [], ◌∷◌,
  ◌++◌, ◌==◌, if◌then◌else◌, length, length-append, positive_length, arith, All,
}
use ouroboros_fs.Text.{as_bytes}
use ouroboros_fs.Text.Utf8.{
  read_until_newline, read_until_newline-line, from_utf8, from_utf8-as_bytes, AreScalars, bytes_end,
}
use ouroboros_fs.Protocol.Command.{Command}
use ouroboros_fs.Protocol.Wire.{body, wire}
use ouroboros_fs.Protocol.Sendable.{IsSendable}
use ouroboros_fs.Protocol.Lines.{body-Lacks}
use ouroboros_fs.Protocol.RoundTrip.{parse_line-wire}
use ouroboros_fs.Node.{Node}
use ouroboros_fs.Server.Client.{Round, Handled, After, goes_on, breaks, fails, handle_command}
use ouroboros_fs.Server.Client.Framing.{Carries, leaving, handle_command-framed}
use ouroboros_fs.Server.Client.Session.{
  Session, closed, ends, go_on, handle_parsed, with_text, with_line, client_loop,
}

-- A request: its command, and the bytes of its body.
pub record Request : Type 0 where
  pub command : Command
  pub payload : List ℕ

-- The bytes of the requests, one after another.
unfoldable pub stream : List Request → List ℕ
stream [] = []
stream (q ∷ qs) = as_bytes (wire q.command) ++ (q.payload ++ stream qs)

pub record IsRequest (q : Request) : Type 0 where
  pub sendable : IsSendable q.command
  pub scalars : AreScalars (wire q.command)
  pub framed : Carries q.command q.payload

-- No read outlasts its timeout.
abbrev pub Prompt : (ℕ → Round) → Type 0
Prompt world = (i : ℕ) → (world i).late ≡ false

-- A read in time goes on.
pub in_time : (a b : Bool) (x y : Session) → b ≡ false → (if a && b then x else y) ≡ y
in_time true b x y h = rw h
in_time false b x y h = refl

wire_bytes : (c : Command) → as_bytes (wire c) ≢ []
unfolding wire
wire_bytes c = bytes_end (body c)

module _ (sha256 : List ℕ → List ℕ) (world : ℕ → Round) where
  -- The specification: no stream and no lines.
  unfoldable pub serve : ℕ → Node → List Request → Session
  serve i n [] = ends ((world i).others n) [] closed
  serve i n (q ∷ qs) =
      let h = handle_command sha256 (world i) ((world i).others n) q.payload q.command in
      let rest = serve (i + 1) h.node qs in go_on h rest h.after

  go_on-leaving :
      (h : Handled) (rest : List ℕ) (s : Session) (a : After)
      → go_on (leaving h rest) s a ≡ go_on h s a
  unfolding go_on
  go_on-leaving h rest s goes_on = refl
  go_on-leaving h rest s breaks = refl
  go_on-leaving h rest s fails = refl

  bytes_line :
      (l : List ℕ) (i : ℕ) (n : Node) (reader : List ℕ) (next : ℕ → Node → List ℕ → Session)
      → l ≢ []
      → with_line sha256 world i n next (l, reader)
        ≡ with_text sha256 world i n reader next (from_utf8 l)
  unfolding with_line
  bytes_line [] i n reader next ne = absurd (ne refl)
  bytes_line (b ∷ l) i n reader next ne = refl

  -- The line of a request reaches its handler.
  round_serves :
      (i : ℕ) (n : Node) (q : Request) (rest : List ℕ) (next : ℕ → Node → List ℕ → Session)
      → IsRequest q
      → with_line sha256 world i n next
          (read_until_newline (as_bytes (wire q.command) ++ (q.payload ++ rest)))
        ≡ (let h = handle_command sha256 (world i) n q.payload q.command in
            go_on h (next (i + 1) h.node rest) h.after)
  unfolding wire with_text handle_parsed
  round_serves i n q rest next v =
      let c = q.command in
      let reader = q.payload ++ rest in
      ap (with_line sha256 world i n next)
        (read_until_newline-line (body c) reader (body-Lacks c v.sendable))
      ∙ bytes_line (as_bytes (wire c)) i n reader next (wire_bytes c)
      ∙ ap (with_text sha256 world i n reader next) (from_utf8-as_bytes (wire c) v.scalars)
      ∙ ap
          (λ r.
            let h = handle_parsed sha256 world i n reader r in
            go_on h (next (i + 1) h.node h.unread) h.after)
          (parse_line-wire c v.sendable)
      ∙ ap (λ h. go_on h (next (i + 1) h.node h.unread) h.after)
          (handle_command-framed sha256 (world i) n q.payload rest c v.framed)
      ∙ (let h = handle_command sha256 (world i) n q.payload c in
          go_on-leaving h rest (next (i + 1) h.node rest) h.after)

  pub serves :
      (fuel i : ℕ) (n : Node) (qs : List Request)
      → Prompt world
      → All IsRequest qs
      → length qs < fuel
      → client_loop sha256 world fuel i n (stream qs) ≡ serve i n qs
  unfolding client_loop stream serve with_line read_until_newline
  serves zero i n qs p v h = absurd (omega arith)
  serves (suc fuel) i n [] p v h =
      in_time (not (((world i).others n).idle_timeout == 0)) (world i).late _ _ (p i)
  serves (suc fuel) i n (q ∷ qs) p v h =
      let here = (world i).others n in
      let done = handle_command sha256 (world i) here q.payload q.command in
      in_time (not (here.idle_timeout == 0)) (world i).late _ _ (p i)
      ∙ round_serves i here q (stream qs) (client_loop sha256 world fuel) v.0
      ∙ ap (λ s. go_on done s done.after) (serves fuel (i + 1) done.node qs p v.1 (omega arith))

  pub fuel_enough : (qs : List Request) → length qs < length (stream qs) + 1
  unfolding stream
  fuel_enough [] = omega arith
  fuel_enough (q ∷ qs) = omega (
    arith,
    fuel_enough qs,
    length-append (as_bytes (wire q.command)) (q.payload ++ stream qs),
    length-append q.payload (stream qs),
    positive_length (as_bytes (wire q.command)) (wire_bytes q.command),
  )
