-- ===== src/Monitoring.antt =====
-- agents/monitoring: the agent that watches the public targets, the other agents, their containers,
-- queues and batch runs, and the host, and triages what it finds.
pub mod Signal
pub mod Probe
pub mod Agents
pub mod ProbeState
pub mod Incidents
pub mod Triage
pub mod Sweep
mod Tests
