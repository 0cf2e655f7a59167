-- ===== src/Llm.antt =====
-- packages/agentkit/src/agentkit/llm.py: the metered, breaker-guarded seam to the LLM gateway.
pub mod Breaker
pub mod Cost
pub mod Client
pub mod JsonText
pub mod CompleteJson
mod Tests
