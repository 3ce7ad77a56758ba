-- ===== src/Server/Cancel.antt =====
-- The countdown thread of server/handler.c cancelled anywhere: within a round, and not only at the
-- `sleep` where a step of Server/Countdown ends.
pub mod Pieces
pub mod Rounds
pub mod Known
pub mod Covered
pub mod Quiet
pub mod Note
pub mod Agree
mod Tests
