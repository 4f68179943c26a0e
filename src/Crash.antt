-- ===== src/Crash.antt =====
-- The Crash game: apps/api/src/games/crash.
pub mod Math
pub mod Curve
pub mod Config
pub mod Game
mod Tests
