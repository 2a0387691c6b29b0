-- ===== src/Api.antt =====
-- agent/internal/api: the HTTP endpoints, the live websocket and what they share.
pub mod Hub
pub mod Subs
pub mod Socket
pub mod Batches
pub mod Requests
pub mod Endpoints
pub mod Server
mod Tests
