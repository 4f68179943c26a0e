-- ===== src/Poker.antt =====
-- No-limit Texas hold'em: apps/api/src/games/poker.
pub mod Betting
pub mod Cards
pub mod Pots
pub mod Config
pub mod Game
mod HandTests
mod ChipTests
