-- ===== src/Pm2.antt =====
-- agent/internal/providers/pm2: the bots that pm2 runs, through a helper process.
pub mod Rpc
pub mod Logs
pub mod Clean
pub mod Processes
pub mod Names
pub mod Control
pub mod Streaming
pub mod Export
pub mod Acl
mod Tests
