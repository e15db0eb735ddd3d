-- ===== src/Route.antt =====
-- The routes of endpoint entries: operator/internal/renderer.
pub mod Paths
pub mod Entries
pub mod Gin
pub mod Clashes
pub mod Admission
pub mod Drop
pub mod Examples
mod Tests
