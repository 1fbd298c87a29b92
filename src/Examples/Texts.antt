-- ===== src/Examples/Texts.antt =====
-- Examples of the texts that nodes exchange: command lines, netmaps, topologies and file tags.
use ouroboros_fs.Base.{none, ℕ, ◌≡◌, ◌↔◌, refl, [], ◌∷◌, ◌==◌, arith, All, ok}
use ouroboros_fs.Text.{Text, codes, eq_text, is_whitespace}
use ouroboros_fs.Text.Pieces.{split, splitn}
use ouroboros_fs.Map.{Map, get, insert, keys}
use ouroboros_fs.Map.Codec.{at}
use ouroboros_fs.Protocol.Command.{topology_hop}
use ouroboros_fs.Protocol.Parse.{parse_line}
use ouroboros_fs.Protocol.Wire.{wire}
use ouroboros_fs.Protocol.RoundTrip.{parse_line-wire}
use ouroboros_fs.Protocol.Filename.{validate_filename, IsFilename, validate_filename_iff}
use ouroboros_fs.Node.{Node, FileTag}
use ouroboros_fs.Server.Heal.{shared_commands}
use ouroboros_fs.Server.Heal.Shared.{Sharable, IsFresh, Agrees, receive_all, shared_commands-Agrees}
use ouroboros_fs.Node.Status.{NodeStatus, alive, dead}
use ouroboros_fs.Node.Address.{port_str}
use ouroboros_fs.Node.Netmap.{parse_entries, serialize_entries, read_entry, read_status}
use ouroboros_fs.Node.Netmap.RoundTrip.{IsPortKey, parse-serialize_entries}
use ouroboros_fs.Node.Topology.{parse_history, topology_history}
use ouroboros_fs.Node.Topology.RoundTrip.{IsEnd, parse-topology_history}
use ouroboros_fs.Node.Tags.{parse_tags, tags_text, is_separator, no_tag}
use ouroboros_fs.Node.Tags.RoundTrip.{IsTag, parse-tags_text}
use ouroboros_fs.Examples.{free, node_a, ring_topology}

parse_line-wire_example :
    parse_line (wire (topology_hop (codes "7000-1") (codes "127.0.0.1:7000") (codes "7000->7001")))
    ≡ ok (topology_hop (codes "7000-1") (codes "127.0.0.1:7000") (codes "7000->7001"))
parse_line-wire_example =
    parse_line-wire (topology_hop (codes "7000-1") (codes "127.0.0.1:7000") (codes "7000->7001")) (
      record { plain = free is_whitespace (codes "7000-1") refl; present = refl },
      record { plain = free is_whitespace (codes "127.0.0.1:7000") refl; present = refl },
      refl,
    )

validate_filename_iff_example :
    (validate_filename (codes "a.txt") ≡ ok (codes "a.txt")) ↔ IsFilename (codes "a.txt")
validate_filename_iff_example = validate_filename_iff (codes "a.txt")

abbrev netmap : Map NodeStatus
netmap = (codes "7001", dead) ∷ (codes "7000", alive) ∷ []

key_7000 : IsPortKey (codes "7000")
key_7000 = record {
  plain = free is_whitespace (codes "7000") refl;
  present = refl;
  no_comma = free (λ c. c == b',') (codes "7000") refl;
  no_equals = free (λ c. c == b'=') (codes "7000") refl;
}

key_7001 : IsPortKey (codes "7001")
key_7001 = record {
  plain = free is_whitespace (codes "7001") refl;
  present = refl;
  no_comma = free (λ c. c == b',') (codes "7001") refl;
  no_equals = free (λ c. c == b'=') (codes "7001") refl;
}

parse-serialize_entries_example :
    get (parse_entries (serialize_entries netmap)) (codes "7001") ≡ get netmap (codes "7001")
parse-serialize_entries_example =
    parse-serialize_entries netmap (key_7001, (key_7000, tt)) (codes "7001")

own_key : IsPortKey (port_str node_a.port)
unfolding port_str split
own_key = key_7000

read_keys : All IsPortKey (keys (parse_entries (codes "7001=Dead")))
unfolding parse_entries read_entry read_status split splitn ouroboros_fs.Text.trim insert
read_keys = (key_7001, tt)

IsEnd-7000 : IsEnd (codes "7000")
IsEnd-7000 = record {
  no_dash = free (λ c. c == b'-') (codes "7000") refl;
  no_semicolon = free (λ c. c == b';') (codes "7000") refl;
}

IsEnd-7001 : IsEnd (codes "7001")
IsEnd-7001 = record {
  no_dash = free (λ c. c == b'-') (codes "7001") refl;
  no_semicolon = free (λ c. c == b';') (codes "7001") refl;
}

topology_ends : All (λ k. IsEnd k × IsEnd (at ring_topology [] k)) (keys ring_topology)
unfolding get
topology_ends = ((IsEnd-7000, IsEnd-7001), ((IsEnd-7001, IsEnd-7000), tt))

parse-topology_history_example :
    get (parse_history (topology_history ring_topology)) (codes "7000")
    ≡ get ring_topology (codes "7000")
parse-topology_history_example = parse-topology_history ring_topology topology_ends (codes "7000")

abbrev tags : Map FileTag
tags = (codes "a.txt", record { start = 7000; size = 3; parts = 2 }) ∷ []

tags-AreTags : All (λ k. IsTag k (at tags no_tag k)) (keys tags)
unfolding get
tags-AreTags = (
  record {
    plain = free is_separator (codes "a.txt") refl;
    start_fits = omega arith;
    size_fits = omega arith;
    parts_fit = omega arith;
  },
  tt,
)

parse-tags_text_example :
    get (parse_tags (tags_text tags)) (codes "a.txt") ≡ get tags (codes "a.txt")
parse-tags_text_example = parse-tags_text tags tags-AreTags (codes "a.txt")

abbrev count : ℕ
count = 1

abbrev sharing : Node
sharing = record node_a { network_nodes = netmap; file_tags = tags }

sharing-Sharable : Sharable sharing
sharing-Sharable = record {
  port_keys = (key_7001, (key_7000, tt));
  edge_ends = topology_ends;
  tag_names = tags-AreTags;
}

abbrev respawned : Node
respawned = record node_a { topology_map = []; next_port = none }

respawned-IsFresh : IsFresh respawned
respawned-IsFresh = record { no_topology = refl; no_tags = refl }

shared_commands-Agrees_example :
    Agrees sharing
      (codes "127.0.0.1:7001")
      (receive_all respawned (shared_commands sharing (codes "127.0.0.1:7001")))
shared_commands-Agrees_example =
    shared_commands-Agrees sharing respawned (codes "127.0.0.1:7001") sharing-Sharable
      respawned-IsFresh
