-- ===== src/Examples/Launch.antt =====
-- An example of a development network of two nodes.
use ouroboros_fs.Base.{◌≡◌, refl, true, false, [], ◌∷◌, none, some, arith, ok}
use ouroboros_fs.Text.{Text, codes, trim, is_whitespace}
use ouroboros_fs.Text.Decimal.{decimal}
use ouroboros_fs.Protocol.Command.{netmap_discover, topology_walk}
use ouroboros_fs.Launcher.Network.{
  Machine, Launched, child_arguments, wiring, node_addrs, wire_all, accepts_ack, addr_of,
  set_network,
}
use ouroboros_fs.Launcher.Network.Wired.{RingWired, set_network-RingWired}
use ouroboros_fs.Launcher.Settings.{Environment}
use ouroboros_fs.Launcher.Network.Process.{Disk, Accepts}
use ouroboros_fs.Server.Disk.Janitor.{enforce_storage_version_again}
use ouroboros_fs.Text.Utf8.{is_scalar}
use ouroboros_fs.Examples.{digest, world, free, holds, address_a, address_b, all_up}

abbrev machine : Machine
machine = record {
  spawns = λ addr. true;
  listens = λ addr. true;
  connects = λ addr. true;
  acknowledges = λ addr. some (codes "OK\n");
}

abbrev launched : Launched
launched = record {
  commands = child_arguments 5000 1000 address_a ∷ child_arguments 5000 1000 address_b ∷ [];
  wired = (address_a, address_b) ∷ (address_b, address_a) ∷ [];
  gateway = none;
  asked = (address_a, netmap_discover) ∷ (address_a, topology_walk) ∷ [];
}

launches : set_network machine 2 7000 (codes "127.0.0.1") 5000 none 1000 ≡ ok launched
unfolding set_network child_arguments wiring node_addrs wire_all accepts_ack trim decimal
launches = refl

abbrev env : Environment
env = record { port = none; auth_token = none }

-- Each process finds a chunk from an earlier run.
abbrev disks : Text → Disk
disks addr = record {
  version = some (codes "1\n");
  content = (codes "a.txt.part-001-of-002", 1 ∷ []) ∷ [];
  backup = [];
  forced = false;
}

accepted : (addr : Text) → Accepts (disks addr)
accepted addr = (codes "1\n", enforce_storage_version_again (disks addr).content [] false)

set_network-RingWired_example :
    RingWired digest world env disks all_up 2 5000 1000 (addr_of (codes "127.0.0.1") 7000) launched
set_network-RingWired_example =
    set_network-RingWired digest world env disks machine all_up 2 7000 5000 1000 (codes "127.0.0.1")
      none launched refl accepted (λ i. refl) (λ i n. refl)
      (record {
        plain = free is_whitespace (codes "127.0.0.1") refl;
        scalars = holds is_scalar (codes "127.0.0.1") refl;
      })
      (omega arith) (omega arith) (λ addr. refl) launches
