-- ===== src/Docker.antt =====
-- agent/internal/providers/docker: containers, through the Docker Engine API.
pub mod Stream
pub mod Containers
mod Tests
