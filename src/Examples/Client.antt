-- ===== src/Examples/Client.antt =====
-- Examples of sessions with one node: a client with the token, a client without, and the messages and
-- connections of a node.
use ouroboros_fs.Base.{◌+◌, ℕ, ◌≤◌, ◌≡◌, ◌⊎◌, refl, List, [], ◌∷◌, ◌++◌, replicate}
use ouroboros_fs.Text.{codes, as_bytes}
use ouroboros_fs.Auth.Token.{from_bytes, make_auth_line}
use ouroboros_fs.Node.{Node, get_next}
use ouroboros_fs.Node.Send.{Sent, message, forward_ring_forward}
use ouroboros_fs.Protocol.Command.{ring_forward}
use ouroboros_fs.Server.Control.{handle_ring_forward}
use ouroboros_fs.Server.Control.Forward.{delivered, delivered_on, hops_left, Deliveries-bounded}
use ouroboros_fs.Server.Client.Session.{handle_client}
use ouroboros_fs.Server.Client.Session.Requests.{stream, serve}
use ouroboros_fs.Server.Client.Session.Admitted.{greeting, handle_client-serves}
use ouroboros_fs.Server.Client.Session.Guard.{Untouched, Proven, handle_client-guarded}
use ouroboros_fs.Server.Client.Session.Fuel.{Ends, handle_client-Ends}
use ouroboros_fs.Server.Accept.{accepting, Serving, takes, none_yet, step, take_connection}
use ouroboros_fs.Server.Accept.Permits.{WithinLimit, Reach-WithinLimit}
use ouroboros_fs.Examples.{
  bytes, digest, digest-IsDigest, address_b, node_a, all_up, world, status_request, list_request,
  status-IsRequest, list-IsRequest,
}

abbrev secret : List ℕ
secret = replicate 32 7

abbrev nonce : List ℕ
nonce = replicate 16 1

abbrev locked : Node
locked = record node_a { auth_token = from_bytes secret }

handle_client-serves_example :
    handle_client digest world locked (
      greeting (make_auth_line digest locked.auth_token nonce)
      ++ stream (status_request ∷ list_request ∷ []))
    ≡ serve digest world 1 locked (status_request ∷ list_request ∷ [])
handle_client-serves_example =
    handle_client-serves digest digest-IsDigest world locked nonce
      (status_request ∷ list_request ∷ []) (bytes nonce refl) refl (λ i. refl)
      (status-IsRequest, (list-IsRequest, tt))

abbrev unproven : List ℕ
unproven = as_bytes (codes "FILE LIST\n")

handle_client-guarded_example :
    Untouched locked (handle_client digest world locked unproven)
    ⊎ Proven digest world digest-IsDigest secret unproven
handle_client-guarded_example =
    handle_client-guarded digest world digest-IsDigest secret locked refl unproven

handle_client-Ends_example : Ends (handle_client digest world node_a unproven)
handle_client-Ends_example = handle_client-Ends digest world node_a unproven

abbrev hello : ℕ → Sent
hello ttl = message node_a address_b (ring_forward ttl (codes "hello"))

sent_on : (handle_ring_forward all_up node_a 1 (codes "hello")).sent ≡ hello 0 ∷ []
unfolding handle_ring_forward forward_ring_forward get_next
sent_on = refl

-- With one hop to live, the next node takes it too, and sends it no further.
Deliveries-bounded_example : 2 ≤ hops_left (ring_forward 1 (codes "hello")) + 1
Deliveries-bounded_example = Deliveries-bounded (
    delivered_on {m = hello 1} all_up node_a 1 (codes "hello") (hello 0) refl sent_on
      (delivered all_up node_a 0 (codes "hello") refl))

abbrev busy : Serving
busy = record { phase = accepting; handlers = (take_connection 1 [] 5).0 }

Reach-WithinLimit_example : WithinLimit 1 busy
Reach-WithinLimit_example = Reach-WithinLimit 1 30 (step (takes 5) none_yet)
