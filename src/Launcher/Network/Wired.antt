-- ===== src/Launcher/Network/Wired.antt =====
-- The ring that `set_network` (src/bin/main.rs) wires, and the rounds that it starts.
use ouroboros_fs.Base.{
  ℕ, zero, suc, ◌+◌, ◌≤◌, ◌<◌, ◌≡◌, refl, sym, ap, ◌∙◌, true, false, List, ◌∷◌, map, Option, none,
  some, ◌==◌, arith, Bool-cases, inl, inr, length, ok,
}
use ouroboros_fs.Text.{Text, eq_text, eq_text_refl}
use ouroboros_fs.Text.Decimal.{decimal}
use ouroboros_fs.Node.{Node, new, set_next}
use ouroboros_fs.Node.Address.{port_str, port_str-address}
use ouroboros_fs.Node.Send.{Net}
use ouroboros_fs.Node.Topology.RoundTrip.{IsEnd}
use ouroboros_fs.Server.Control.{handle_node_next}
use ouroboros_fs.Server.Walk.Ring.{Cluster, Linked, Line, next_of}
use ouroboros_fs.Server.Discover.Ring.{Follows}
use ouroboros_fs.Server.Discover.Completes.{Discovered, netmap_discover-Discovered}
use ouroboros_fs.Node.Netmap.RoundTrip.{IsPortKey}
use mathlib.Core.Path.{subst}
use ouroboros_fs.Server.Walk.Completes.{Completed, topology_walk-completes}
use ouroboros_fs.Launcher.Network.{
  port_at, next_port, addr_of, wiring, Machine, Launched, set_network,
}
use ouroboros_fs.Launcher.Network.Process.{
  Disk, Accepts, IsHost, told_node, wired_node, listener, eq_text-append, decimal_apart,
  decimal-colon, decimal-IsEnd, decimal-IsPortKey,
}
use ouroboros_fs.Launcher.Settings.{Environment}
use ouroboros_fs.Server.Client.{Round}
use ouroboros_fs.Server.Client.Session.Requests.{Prompt}
use ouroboros_fs.Launcher.Network.Hearing.{told_node_lem}
use ouroboros_fs.Launcher.Network.Told.{launched_wired}

module _ (disks : Text → Disk) (host : Text) (base nodes wait_time max_file_size : ℕ)
    (fits : base + nodes ≤ 65536) where
  port_plain : (i : ℕ) → i < nodes → port_at base i ≡ base + i
  unfolding port_at
  port_plain i h = omega arith

  abbrev node_addr : ℕ → Text
  node_addr i = addr_of host (port_at base i)

  port_of : (i : ℕ) → port_str (node_addr i) ≡ decimal (port_at base i)
  port_of i = port_str-address host (decimal (port_at base i)) (decimal-colon (port_at base i))

  ports_apart :
      (i j : ℕ)
      → i < nodes
      → j < i
      → eq_text (decimal (port_at base i)) (decimal (port_at base j)) ≡ false
  ports_apart i j h l =
      decimal_apart (port_at base i) (port_at base j) (omega (arith, port_plain i h))
        (omega (arith, port_plain j (omega arith)))
        (λ e. omega (arith, e, port_plain i h, port_plain j (omega arith)))

  addrs_apart : (i j : ℕ) → i < nodes → j < i → eq_text (node_addr j) (node_addr i) ≡ false
  addrs_apart i j h l =
      eq_text-append host (b':' ∷ decimal (port_at base j)) (b':' ∷ decimal (port_at base i))
      ∙ decimal_apart (port_at base j) (port_at base i) (omega (arith, port_plain j (omega arith)))
          (omega (arith, port_plain i h))
          (λ e. omega (arith, e, port_plain i h, port_plain j (omega arith)))

  abbrev ring_node : ℕ → Node
  ring_node i =
      wired_node disks wait_time max_file_size (node_addr i, addr_of host (next_port base nodes i))

  -- The nodes from the i-th on.
  abbrev pub ring_from : ℕ → ℕ → List Node
  ring_from i k = map (wired_node disks wait_time max_file_size) (wiring host base nodes i k)

  own_address : (i : ℕ) → (ring_node i).port ≡ node_addr i
  unfolding wired_node handle_node_next set_next new
  own_address i = refl

  told_next : (i : ℕ) → (ring_node i).next_port ≡ some (addr_of host (next_port base nodes i))
  unfolding wired_node handle_node_next set_next new
  told_next i = refl

  listening :
      (k j i : ℕ)
      → j ≤ i
      → i < j + k
      → j + k ≤ nodes
      → listener (ring_from j k) (node_addr i) ≡ some (ring_node i)
  unfolding listener wiring
  listening zero j i l h b = absurd (omega arith)
  listening (suc k) j i l h b = elim (Bool-cases (j == i)) [
    | inl e ↦
        let same : j ≡ i = ground (arith, e) in
        rw (same, own_address i, eq_text_refl (node_addr i)) refl
    | inr e ↦
        let less : j < i = ground (arith, e) in
        rw (own_address j, addrs_apart i j (omega arith) less)
          (listening k (j + 1) i (omega arith) (omega arith) (omega arith))
  ]

  first_port : 0 < nodes → port_at base 0 ≡ base
  unfolding port_at
  first_port h = omega arith

  next_inside : (i : ℕ) → i + 1 < nodes → next_port base nodes i ≡ port_at base (i + 1)
  unfolding next_port port_at
  next_inside i h = ground (arith, h)

  next_last : (i : ℕ) → i + 1 ≡ nodes → next_port base nodes i ≡ port_at base 0
  unfolding next_port port_at
  next_last i h = ground (arith, h)

  hop_next :
      (k i : ℕ)
      → i + suc k ≡ nodes
      → addr_of host (next_port base nodes i) ≡ next_of (node_addr 0) (ring_from (i + 1) k)
  unfolding wiring
  hop_next zero i h = ap (addr_of host) (next_last i h)
  hop_next (suc k) i h = ap (addr_of host) (next_inside i (omega arith)) ∙ sym (own_address (i + 1))

  ring_size : (k i : ℕ) → length (ring_from i k) ≡ k
  unfolding wiring
  ring_size zero i = refl
  ring_size (suc k) i = ap (λ j. suc j) (ring_size k (i + 1))

  node-IsEnd : (i : ℕ) → IsEnd (port_str (ring_node i).port)
  node-IsEnd i = rw (own_address i, port_of i) (decimal-IsEnd (port_at base i))

  node-IsPortKey : (i : ℕ) → IsPortKey (port_str (ring_node i).port)
  node-IsPortKey i = rw (own_address i, port_of i) (decimal-IsPortKey (port_at base i))

  -- Every process took its line.
  all_heard :
      (sha256 : List ℕ → List ℕ) (world : ℕ → Round)
      → Prompt world
      → ((i : ℕ) (n : Node) → (world i).others n ≡ n)
      → (env : Environment) → env.auth_token ≡ none
      → ((addr : Text) → Accepts (disks addr))
      → IsHost host
      → (k i : ℕ)
      → map (told_node sha256 world env disks wait_time max_file_size) (wiring host base nodes i k)
        ≡ map (λ n. some n) (ring_from i k)
  unfolding wiring
  all_heard sha256 world t o env e a h zero i = refl
  all_heard sha256 world t o env e a h (suc k) i =
      let one =
        told_node_lem sha256 world t o env disks wait_time max_file_size host (port_at base i)
          (next_port base nodes i) e h (a (node_addr i)) in
      let rest = all_heard sha256 world t o env e a h k (i + 1) in (λ j. one j ∷ rest j)

  module _ (net : Net) (up : (addr : Text) → net.up addr ≡ true) where
    abbrev known_nodes : Cluster
    known_nodes = listener (ring_from 0 nodes)

    linked :
        (k i : ℕ) → i + suc k ≡ nodes → Linked net (node_addr 0) (ring_node i) (ring_from (i + 1) k)
    linked k i h = record {
      next = told_next i ∙ ap some (hop_next k i h);
      reached = up _;
      port_end = node-IsEnd i;
    }

    ring_from-Line :
        (k i : ℕ) → 0 < i → i + k ≡ nodes → Line net known_nodes (node_addr 0) (ring_from i k)
    unfolding wiring
    ring_from-Line zero i p h = tt
    ring_from-Line (suc k) i p h = (
      record {
        linked = linked k i h;
        known =
            ap known_nodes (own_address i)
            ∙ listening nodes 0 i (omega arith) (omega arith) (omega arith);
        apart = rw (own_address i, port_of i, port_of 0) (ports_apart i 0 (omega arith) p);
      },
      ring_from-Line k (i + 1) (omega arith) (omega arith),
    )

    follows :
        (k i : ℕ)
        → 0 < i
        → i + suc k ≡ nodes
        → Follows net known_nodes (node_addr 0) (ring_node i) (ring_from (i + 1) k)
    follows k i p h = record {
      next = told_next i ∙ ap some (hop_next k i h);
      reached = up _;
      known =
          ap known_nodes (own_address i)
          ∙ listening nodes 0 i (omega arith) (omega arith) (omega arith);
      apart = rw (own_address i, port_of i, port_of 0) (ports_apart i 0 (omega arith) p);
      key = node-IsPortKey i;
    }

    ring_from-Round :
        (k i : ℕ)
        → 0 < i
        → i + k ≡ nodes
        → ouroboros_fs.Server.Discover.Ring.Round net known_nodes (node_addr 0) (ring_from i k)
    unfolding wiring
    ring_from-Round zero i p h = tt
    ring_from-Round (suc k) i p h =
        (follows k i p h, ring_from-Round k (i + 1) (omega arith) (omega arith))

    -- The first node, the second, and the rest of the ring.
    walk_wired :
        (k : ℕ)
        → suc (suc k) ≡ nodes
        → Completed net known_nodes (ring_node 0) (ring_node 0 ∷ ring_node 1 ∷ ring_from 2 k)
    unfolding wiring
    walk_wired k h =
        topology_walk-completes net known_nodes (ring_node 0) (ring_node 1) (ring_from 2 k)
          (subst (λ a. Linked net a (ring_node 0) (ring_from 1 (suc k))) (sym (own_address 0))
            (linked (suc k) 0 (omega (arith, h))))
          (subst (λ a. Line net known_nodes a (ring_from 1 (suc k))) (sym (own_address 0))
            (ring_from-Line (suc k) 1 (omega arith) (omega (arith, h))))

    discover_wired :
        (k : ℕ)
        → suc (suc k) ≡ nodes
        → Discovered net known_nodes (ring_node 0) (ring_node 1 ∷ ring_from 2 k)
    unfolding wiring
    discover_wired k h =
        netmap_discover-Discovered net known_nodes (ring_node 0) (ring_node 1) (ring_from 2 k)
          (told_next 0 ∙ ap some (hop_next (suc k) 0 (omega (arith, h)))) (up _) (node-IsPortKey 0)
          (subst
            (λ a. ouroboros_fs.Server.Discover.Ring.Round net known_nodes a (ring_from 1 (suc k)))
            (sym (own_address 0)) (ring_from-Round (suc k) 1 (omega arith) (omega (arith, h))))

-- What the launcher leaves: its processes, each after the connection that told it its next hop, and
-- each known by its address, of which the first gets the round and the walk.
pub record RingWired (sha256 : List ℕ → List ℕ) (world : ℕ → Round) (env : Environment)
    (disks : Text → Disk) (net : Net) (nodes wait_time max_file_size : ℕ) (start : Text)
    (l : Launched) : Type 0 where
  pub first : Node
  pub others : List Node
  pub ring :
      map (told_node sha256 world env disks wait_time max_file_size) l.wired
      ≡ map (λ n. some n) (first ∷ others)
  pub size : length (first ∷ others) ≡ nodes
  pub starts_at : first.port ≡ start
  pub discovers : Discovered net (listener (first ∷ others)) first others
  pub walks : Completed net (listener (first ∷ others)) first (first ∷ others)

-- Without OUROBOROS_AUTH_TOKEN in the environment, a launch of two nodes or more, with ports up to
-- 65535, that ends without an error leaves a ring of that many: each process, run with the flags
-- it was given on the directory it found, and after its loop read the one line that the launcher
-- sent it, knows the next as its next hop, also if the answer came too late; and the first
-- discovery and the first topology walk, from the node at the base port, both complete. Every
-- directory has a marker that its process accepts, no read is late, no other connection comes in
-- between, the host is a word of scalar values, and every address takes a connection.
pub set_network-RingWired :
    (sha256 : List ℕ → List ℕ) (world : ℕ → Round) (env : Environment) (disks : Text → Disk)
    (m : Machine) (net : Net) (nodes base wait_time max_file_size : ℕ) (host : Text)
    (dns_port : Option ℕ) (l : Launched)
    → env.auth_token ≡ none
    → ((addr : Text) → Accepts (disks addr))
    → Prompt world
    → ((i : ℕ) (n : Node) → (world i).others n ≡ n)
    → IsHost host
    → 1 < nodes
    → base + nodes ≤ 65536
    → ((addr : Text) → net.up addr ≡ true)
    → set_network m nodes base host wait_time dns_port max_file_size ≡ ok l
    → RingWired sha256 world env disks net nodes wait_time max_file_size (addr_of host base) l
unfolding wiring
set_network-RingWired sha world env disks m net zero base w f host dns_port l e a t o ih p fits up
      h =
    absurd (omega arith)
set_network-RingWired sha world env disks m net (suc zero) base w f host dns_port l e a t o ih p
      fits up h =
    absurd (omega arith)
set_network-RingWired sha world env disks m net (suc (suc k)) base w f host dns_port l e a t o ih p
      fits up h =
    let nodes = suc (suc k) in
    record {
      first = ring_node disks host base nodes w f fits 0;
      others = ring_from disks host base nodes w f fits 1 (suc k);
      ring =
          ap (map (told_node sha world env disks w f))
            (launched_wired m nodes base w f host dns_port l (omega arith) h)
          ∙ all_heard disks host base nodes w f fits sha world t o env e a ih nodes 0;
      size = ring_size disks host base nodes w f fits nodes 0;
      starts_at =
          own_address disks host base nodes w f fits 0
          ∙ ap (addr_of host) (first_port disks host base nodes w f fits (omega arith));
      discovers = discover_wired disks host base nodes w f fits net up k refl;
      walks = walk_wired disks host base nodes w f fits net up k refl;
    }
