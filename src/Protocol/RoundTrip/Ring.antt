-- ===== src/Protocol/RoundTrip/Ring.antt =====
-- `parse_line` of src/protocol.rs on the lines of NODE, RING, TOPOLOGY and NETMAP.
use ouroboros_fs.Base.{ℕ, ◌≤◌, ◌≡◌, refl, ◌∙◌, ok}
use ouroboros_fs.Text.{Text, codes, trim-Free, Free, is_whitespace}
use ouroboros_fs.Text.Decimal.{decimal, parse_uint-decimal, max_u32}
use ouroboros_fs.Protocol.Command.{
  node_next, node_heal_hop, node_heal_done, ring_forward, topology_hop, topology_done, topology_set,
  netmap_hop, netmap_done, netmap_set,
}
use ouroboros_fs.Protocol.Parse.{
  parse_line, dispatch, parse_node_cmd, parse_ring_cmd, parse_topology_cmd, parse_netmap_cmd,
}
use ouroboros_fs.Protocol.Wire.{wire, ◌▸◌}
use ouroboros_fs.Protocol.Sendable.{
  IsField, Clean, line-dispatch, two_fields, three_fields, Clean-▸, Clean-field, trim-field,
  decimal-IsField,
}

pub node_next_lem :
    (addr : Text) → IsField addr → parse_line (wire (node_next addr)) ≡ ok (node_next addr)
unfolding wire
node_next_lem addr f =
    line-dispatch (codes "NODE") (codes "NEXT" ▸ addr) refl (Clean-field f)
    ∙ (unfold dispatch parse_node_cmd in rw (trim-field f, f.present))

pub node_heal_hop_lem :
    (t a : Text)
    → IsField t
    → IsField a
    → parse_line (wire (node_heal_hop t a)) ≡ ok (node_heal_hop t a)
unfolding wire
node_heal_hop_lem t a ft fa =
    line-dispatch (codes "NODE") (codes "HEAL-HOP" ▸ t ▸ a) refl
      (Clean-▸ t a (Clean-field ft) (Clean-field fa))
    ∙ (unfold dispatch parse_node_cmd in
        rw (two_fields t a ft, trim-field ft, trim-field fa, ft.present, fa.present))

pub node_heal_done_lem :
    (t : Text) → IsField t → parse_line (wire (node_heal_done t)) ≡ ok (node_heal_done t)
unfolding wire
node_heal_done_lem t f =
    line-dispatch (codes "NODE") (codes "HEAL-DONE" ▸ t) refl (Clean-field f)
    ∙ (unfold dispatch parse_node_cmd in rw (trim-field f, f.present))

pub ring_forward_lem :
    (n : ℕ) (msg : Text)
    → n ≤ max_u32
    → Clean msg
    → parse_line (wire (ring_forward n msg)) ≡ ok (ring_forward n msg)
unfolding wire
ring_forward_lem n msg h c =
    line-dispatch (codes "RING") (codes "FORWARD" ▸ decimal n ▸ msg) refl
      (Clean-▸ (decimal n) msg (Clean-field (decimal-IsField n)) c)
    ∙ (unfold dispatch parse_ring_cmd in
        rw (
          two_fields (decimal n) msg (decimal-IsField n),
          trim-field (decimal-IsField n),
          parse_uint-decimal max_u32 n h,
        ))

pub topology_hop_lem :
    (t a h : Text)
    → IsField t
    → IsField a
    → Clean h
    → parse_line (wire (topology_hop t a h)) ≡ ok (topology_hop t a h)
unfolding wire
topology_hop_lem t a h ft fa c =
    line-dispatch (codes "TOPOLOGY") (codes "HOP" ▸ t ▸ a ▸ h) refl
      (Clean-▸ t (a ▸ h) (Clean-field ft) (Clean-▸ a h (Clean-field fa) c))
    ∙ (unfold dispatch parse_topology_cmd in
        rw (three_fields t a h ft fa, trim-field ft, trim-field fa, ft.present, fa.present))

pub topology_done_lem :
    (t h : Text)
    → IsField t
    → Clean h
    → parse_line (wire (topology_done t h)) ≡ ok (topology_done t h)
unfolding wire
topology_done_lem t h ft c =
    line-dispatch (codes "TOPOLOGY") (codes "DONE" ▸ t ▸ h) refl (Clean-▸ t h (Clean-field ft) c)
    ∙ (unfold dispatch parse_topology_cmd in rw (two_fields t h ft, trim-field ft, ft.present))

pub netmap_hop_lem :
    (t a h : Text)
    → IsField t
    → IsField a
    → Clean h
    → parse_line (wire (netmap_hop t a h)) ≡ ok (netmap_hop t a h)
unfolding wire
netmap_hop_lem t a h ft fa c =
    line-dispatch (codes "NETMAP") (codes "HOP" ▸ t ▸ a ▸ h) refl
      (Clean-▸ t (a ▸ h) (Clean-field ft) (Clean-▸ a h (Clean-field fa) c))
    ∙ (unfold dispatch parse_netmap_cmd in
        rw (three_fields t a h ft fa, trim-field ft, trim-field fa, ft.present, fa.present))

pub netmap_done_lem :
    (t h : Text) → IsField t → Clean h → parse_line (wire (netmap_done t h)) ≡ ok (netmap_done t h)
unfolding wire
netmap_done_lem t h ft c =
    line-dispatch (codes "NETMAP") (codes "DONE" ▸ t ▸ h) refl (Clean-▸ t h (Clean-field ft) c)
    ∙ (unfold dispatch parse_netmap_cmd in rw (two_fields t h ft, trim-field ft, ft.present))

pub topology_set_lem :
    (h : Text) → Clean h → parse_line (wire (topology_set h)) ≡ ok (topology_set h)
unfolding wire
topology_set_lem h c =
    line-dispatch (codes "TOPOLOGY") (codes "SET" ▸ h) refl (c)
    ∙ (unfold dispatch parse_topology_cmd in refl)

pub netmap_set_lem :
    (s : Text)
    → Free is_whitespace s
    → Clean s
    → parse_line (wire (netmap_set s)) ≡ ok (netmap_set s)
unfolding wire
netmap_set_lem s h c =
    line-dispatch (codes "NETMAP") (codes "SET" ▸ s) refl (c)
    ∙ (unfold dispatch parse_netmap_cmd in rw (trim-Free s h))
