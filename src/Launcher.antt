-- ===== src/Launcher.antt =====
-- The program `ouroboros_fs`, src/bin/main.rs: the settings of one process, and the network of
-- processes that `dev-network` starts.
pub mod Settings
pub mod Network
