-- ===== src/Docker.antt =====
-- henry/sandbox/docker.py: the Docker sandbox, its paths, its payload decoder and its sessions.
pub mod SafePath
pub mod Payload
pub mod Sessions
pub mod Start
pub mod Cells
pub mod Files
pub mod Interleaving
mod Tests
