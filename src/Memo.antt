-- ===== src/Memo.antt =====
-- What the controllers remember between passes, in memory, of operator/internal/controller.
-- A mutex guards each memo: an operation is one step.
pub mod Versions
pub mod Kinds
pub mod Passes
mod Tests
