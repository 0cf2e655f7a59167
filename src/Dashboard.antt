-- ===== src/Dashboard.antt =====
-- The dashboard: the answers of the agents, their tiles, the roll-up of their costs, and what it keeps,
-- shows and lets its users change.
pub mod Upstream
pub mod Tiles
pub mod Costs
pub mod Incidents
pub mod Session
pub mod Snapshot
pub mod Store
pub mod Views
pub mod Tokens
pub mod Csrf
mod Tests
