-- ===== src/Check.antt =====
-- The checks that judge configurations: operator/internal/configcheck.
pub mod Verdicts
pub mod Conflicts
mod Tests
