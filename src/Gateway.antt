-- ===== src/Gateway.antt =====
-- The HTTP gateway, src/gateway.rs: what it asks the ring for a client, and what it makes of the bytes
-- that a node sends.
pub mod Stream
pub mod Http
pub mod Ring
pub mod Status
pub mod Files
pub mod Upload
pub mod Download
pub mod Metrics
pub mod Routes
