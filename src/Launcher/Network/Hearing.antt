-- ===== src/Launcher/Network/Hearing.antt =====
-- A process of the network takes the line of `send_node_next` (src/bin/main.rs): its loop reads it, parses
-- it, and calls the handler.
use ouroboros_fs.Base.{
  ℕ, ◌+◌, ◌≡◌, refl, sym, ap, ◌∙◌, true, false, List, [], ◌∷◌, ◌++◌, append-nil, none, some,
  All-append, All-mono, length, arith,
}
use ouroboros_fs.Text.{Text, codes, as_bytes, is_whitespace, is_empty, Free}
use ouroboros_fs.Text.Decimal.{decimal, decimal-AllDigits}
use ouroboros_fs.Text.Utf8.{AreScalars, is_scalar}
use ouroboros_fs.Auth.Token.{is_enabled}
use ouroboros_fs.Node.{Node, new}
use ouroboros_fs.Node.Address.{any-colon}
use ouroboros_fs.Protocol.Command.{node_next}
use ouroboros_fs.Protocol.Wire.{wire, body}
use ouroboros_fs.Protocol.Sendable.{IsField, decimal-IsField}
use ouroboros_fs.Server.Control.{handle_node_next}
use ouroboros_fs.Server.Client.{Round, handle_command, by_outcome}
use ouroboros_fs.Server.Client.Session.{client_loop, go_on, handle_client}
use ouroboros_fs.Server.Client.Session.Requests.{
  Request, IsRequest, Prompt, stream, serve, serves, fuel_enough,
}
use ouroboros_fs.Launcher.Settings.{Environment}
use ouroboros_fs.Launcher.Network.{addr_of}
use ouroboros_fs.Launcher.Network.Process.{
  Disk, Accepts, IsHost, child_node_lem, told_by, told_node, wired_node,
}

abbrev next_request : Text → Request
next_request addr = record { command = node_next addr; payload = [] }

digit-Free : (n : ℕ) → Free is_whitespace (decimal n)
digit-Free n = (decimal-IsField n).plain

present_middle : (host rest : Text) (c : ℕ) → is_empty (host ++ c ∷ rest) ≡ false
present_middle [] rest c = refl
present_middle (x ∷ host) rest c = refl

addr-IsField : (host : Text) (port : ℕ) → IsHost host → IsField (addr_of host port)
addr-IsField host port h = record {
  plain = All-append (λ c. is_whitespace c ≡ false) host _ h.plain (refl, digit-Free port);
  present = present_middle host (decimal port) b':';
}

addr-AreScalars : (host : Text) (port : ℕ) → IsHost host → AreScalars (addr_of host port)
addr-AreScalars host port h =
    All-append (λ c. is_scalar c ≡ true) host _ h.scalars
      (refl, All-mono (decimal port) (λ c e. ground arith) (decimal-AllDigits port))

lead-AreScalars : AreScalars (codes "NODE NEXT ")
lead-AreScalars = (refl, (refl, (refl, (refl, (refl, (refl, (refl, (refl, (refl, (refl, tt))))))))))

next-IsRequest :
    (host : Text) (port : ℕ) → IsHost host → IsRequest (next_request (addr_of host port))
unfolding wire body
next-IsRequest host port h = record {
  sendable = addr-IsField host port h;
  scalars =
      All-append (λ c. is_scalar c ≡ true) (codes "NODE NEXT " ++ addr_of host port) _
        (All-append (λ c. is_scalar c ≡ true) (codes "NODE NEXT ") _ lead-AreScalars
          (addr-AreScalars host port h))
        (refl, tt);
  framed = refl;
}

module _ (sha256 : List ℕ → List ℕ) (world : ℕ → Round) (p : Prompt world)
    (alone : (i : ℕ) (n : Node) → (world i).others n ≡ n) where
  no_greeting :
      (n : Node) (reader : List ℕ)
      → is_enabled n.auth_token ≡ false
      → handle_client sha256 world n reader
        ≡ client_loop sha256 world (length reader + 1) 1 n reader
  unfolding handle_client
  no_greeting n reader off = rw off

  served_next :
      (n : Node) (next : Text)
      → (serve sha256 world 1 n (next_request next ∷ [])).node ≡ (handle_node_next n next).node
  unfolding serve go_on handle_command by_outcome
  served_next n next = alone 2 _ ∙ ap (λ m. (handle_node_next m next).node) (alone 1 n)

  heard :
      (n : Node) (host : Text) (port : ℕ)
      → IsHost host
      → is_enabled n.auth_token ≡ false
      → (handle_client sha256 world n (as_bytes (wire (node_next (addr_of host port))))).node
        ≡ (handle_node_next n (addr_of host port)).node
  unfolding stream
  heard n host port h off =
      let next = addr_of host port in
      let qs = next_request next ∷ [] in
      let bytes : as_bytes (wire (node_next next)) ≡ stream qs =
        sym (append-nil (as_bytes (wire (node_next next)))) in
      ap (λ b. (handle_client sha256 world n b).node) bytes
      ∙ ap (λ s. s.node) (no_greeting n (stream qs) off)
      ∙ ap (λ s. s.node)
          (serves sha256 world (length (stream qs) + 1) 1 n qs p (next-IsRequest host port h, tt)
            (fuel_enough sha256 world qs))
      ∙ served_next n next

  pub told_node_lem :
      (env : Environment) (disks : Text → Disk) (wait_time max_file_size : ℕ) (host : Text)
      (port next : ℕ)
      → env.auth_token ≡ none
      → IsHost host
      → Accepts (disks (addr_of host port))
      → told_node sha256 world env disks wait_time max_file_size
          (addr_of host port, addr_of host next)
        ≡ some (wired_node disks wait_time max_file_size (addr_of host port, addr_of host next))
  unfolding told_node told_by wired_node new is_enabled
  told_node_lem env disks w f host port next e h a =
      ap (told_by sha256 world (addr_of host next))
        (child_node_lem env disks w f (addr_of host port) e (any-colon host (decimal port)) a)
      ∙ ap some (heard _ host next h refl)
