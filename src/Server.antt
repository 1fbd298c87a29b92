-- ===== src/Server.antt =====
-- The node's server, src/server.rs: chunks and their files on disk, and the handlers of the commands.
pub mod Chunk
pub mod Disk
pub mod Outcome
pub mod Control
pub mod Walk
pub mod Discover
pub mod Store
pub mod Push
pub mod Pull
pub mod Heal
pub mod Client
pub mod Accept
pub mod Bind
