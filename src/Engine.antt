-- ===== src/Engine.antt =====
-- engine/src: the policy engine and its agents.
pub mod Types
pub mod Levels
pub mod Merkle
pub mod Policy
pub mod Audit
pub mod Drift
pub mod Arbitrage
pub mod Keeper
pub mod Reputation
pub mod Risk
pub mod Rebalance
pub mod Points
pub mod Rationale
pub mod Portfolio
pub mod Tests
