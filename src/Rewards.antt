-- ===== src/Rewards.antt =====
-- The reward targets of src/rewards: how the pool of a kind of work is divided among its candidates.
pub mod Policy
mod Division
pub mod Demand
mod Order
mod Tests
