-- ===== src/Examples/Heal.antt =====
-- Examples of healing: a heal walk in a ring of three nodes, one of which is started again, and that
-- healing alone.
use ouroboros_fs.Base.{◌≡◌, all, not, refl, true, [], ◌∷◌, none, some, if◌then◌else◌, ◌==◌}
use ouroboros_fs.Text.{Text, codes, eq_text, trim}
use ouroboros_fs.Text.Pieces.{split}
use ouroboros_fs.Map.{insert, get}
use ouroboros_fs.Text.Decimal.{parse_uint}
use ouroboros_fs.Node.{Node}
use ouroboros_fs.Node.Address.{port_str, host_of}
use ouroboros_fs.Node.Topology.{get_next_for_node}
use ouroboros_fs.Node.Topology.RoundTrip.{IsEnd}
use ouroboros_fs.Node.Walks.{register_heal_walk, make_walk_token}
use ouroboros_fs.Node.Netmap.{update_node_status}
use ouroboros_fs.Node.Send.{broadcast_netmap_update}
use ouroboros_fs.Server.Walk.Ring.{Cluster}
use ouroboros_fs.Server.Heal.Shared.{Sharable}
use ouroboros_fs.Server.Heal.Death.{Surroundings, check_node_health, handle_node_death}
use ouroboros_fs.Server.Heal.Death.Revived.{Revivable, sharer}
use ouroboros_fs.Server.Heal.Restored.{Restored, handle_node_death-Restored}
use ouroboros_fs.Server.Heal.Walk.Rounds.{lost, well, IsLost, HealLine}
use ouroboros_fs.Server.Heal.Walk.Completes.{heal_waiter, Healed, node_heal-Healed}
use ouroboros_fs.Examples.{
  free, digest, digest-IsDigest, address_a, address_b, node_a, node_b, node_at, surroundings,
}
use ouroboros_fs.Text.{is_whitespace}

-- A ring of three nodes, the second of which does not answer: nobody listens at its address.
abbrev address_c : Text
address_c = codes "127.0.0.1:7002"

abbrev node_c : Node
node_c = node_at address_c address_a

abbrev first_node : Node
first_node = record node_a {
  respawn_dead = true;
  topology_map =
      (codes "7000", codes "7001")
      ∷ (codes "7001", codes "7002")
      ∷ (codes "7002", codes "7000")
      ∷ [];
}

abbrev cluster : Cluster
cluster addr =
    if eq_text addr address_a
    then some first_node
    else if eq_text addr address_c
    then some node_c
    else none

abbrev one_down : Surroundings
one_down = record surroundings {
  pong = λ addr. if eq_text addr address_b then none else some (codes "PONG\n");
}

-- A process that has just started knows no next hop.
abbrev fresh : Text → Node
fresh addr = record node_b { port = addr; next_port = none; topology_map = [] }

port_ends :
    (s : Text) → all (λ c. not (c == b'-')) s ≡ true → all (λ c. not (c == b';')) s ≡ true → IsEnd s
port_ends s h k = record {
  no_dash = free (λ c. c == b'-') s h;
  no_semicolon = free (λ c. c == b';') s k;
}

b-IsLost : IsLost one_down (heal_waiter first_node) address_b address_c
unfolding broadcast_netmap_update update_node_status port_str split insert parse_uint
    check_node_health register_heal_walk make_walk_token get_next_for_node host_of get
b-IsLost = record {
  silent = refl;
  revivable = record {
    respawns = refl;
    spawns = refl;
    port = 7001;
    port_number = refl;
    listening = refl;
    shares = λ c. refl;
  };
  reached = refl;
  written = refl;
  sharable = record {
    port_keys = (
      record {
        plain = free is_whitespace (codes "7001") refl;
        present = refl;
        no_comma = free (λ c. c == b',') (codes "7001") refl;
        no_equals = free (λ c. c == b'=') (codes "7001") refl;
      },
      tt,
    );
    edge_ends = (
      (port_ends (codes "7000") refl refl, port_ends (codes "7001") refl refl),
      (
        (port_ends (codes "7001") refl refl, port_ends (codes "7002") refl refl),
        ((port_ends (codes "7002") refl refl, port_ends (codes "7000") refl refl), tt),
      ),
    );
    tag_names = tt;
  };
  port = codes "7002";
  knows = refl;
  leads = refl;
}

line :
    HealLine digest fresh one_down address_a
      (heal_waiter first_node)
      address_a
      (lost address_b ∷ well node_c ∷ [])
unfolding port_str split check_node_health trim
line = (
  b-IsLost,
  refl,
  (refl, (refl, tt)),
  record { no_topology = refl; no_tags = refl },
  (record { answers = refl; reached = refl }, refl, (refl, tt), refl, refl),
)

node_heal-Healed_example :
    Healed digest fresh one_down cluster first_node (lost address_b ∷ well node_c ∷ [])
node_heal-Healed_example =
    node_heal-Healed digest fresh one_down cluster first_node (lost address_b ∷ well node_c ∷ [])
      refl (refl, tt) line

abbrev healer : Node
healer = record node_a { respawn_dead = true; topology_map = [] }

abbrev reborn : Node
reborn = record node_b { topology_map = [] }

revivable : Revivable surroundings healer address_b
unfolding port_str split parse_uint
revivable = record {
  respawns = refl;
  spawns = refl;
  port = 7001;
  port_number = refl;
  listening = refl;
  shares = λ c. refl;
}

sharable : Sharable (sharer surroundings healer address_b)
unfolding broadcast_netmap_update update_node_status port_str split insert
sharable = record {
  port_keys = (
    record {
      plain = free is_whitespace (codes "7001") refl;
      present = refl;
      no_comma = free (λ c. c == b',') (codes "7001") refl;
      no_equals = free (λ c. c == b'=') (codes "7001") refl;
    },
    tt,
  );
  edge_ends = tt;
  tag_names = tt;
}

handle_node_death-Restored_example :
    Restored digest healer address_b reborn (handle_node_death digest surroundings healer address_b)
handle_node_death-Restored_example =
    handle_node_death-Restored digest surroundings healer reborn address_b digest-IsDigest revivable
      (record { no_topology = refl; no_tags = refl }) sharable tt
