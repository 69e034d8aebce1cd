-- ===== src/Work.antt =====
-- The work graph of a claim: src/work. A work item is the view that agents poll of a review task, a replication job or
-- an artifact maintenance task; what it still needs, its priority and whether it may be claimed at once are derived
-- from its policy, its runs and the other items.
pub mod Types
pub mod Policy
pub mod Orchestration
pub mod Routing
pub mod Scheduling
pub mod Selection
pub mod Status
mod Branches
mod Capacity
mod Decision
mod Priority
mod Readiness
pub mod Examples
mod Tests
