-- ===== src/Protocol.antt =====
-- The line protocol, src/protocol.rs: the commands, the parser of one line, and the lines that the
-- nodes write to one another.
pub mod Filename
pub mod Command
pub mod Parse
pub mod Wire
pub mod Sendable
pub mod RoundTrip
pub mod Lines
