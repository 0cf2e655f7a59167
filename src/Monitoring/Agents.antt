-- ===== src/Monitoring/Agents.antt =====
-- The signal builders of monitoring_agent/collectors.py for the agents, their containers, their batch
-- runs, the alert queues and the host. Counts and depths are numbers, times numbers of seconds,
-- latencies numbers of ten-thousandths of a second.
pub mod Endpoint
pub mod Container
pub mod Batch
pub mod Backlog
pub mod Host
