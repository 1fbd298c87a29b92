-- ===== src/Node/Status.antt =====
-- `NodeStatus` of src/node_status.rs.
pub data NodeStatus : Type 0 where
  alive dead : NodeStatus
