-- ===== src/Risk.antt =====
-- apps/api/src/risk: the heuristics over hands of poker.
pub mod Collusion
