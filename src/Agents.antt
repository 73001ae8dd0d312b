-- ===== src/Agents.antt =====
-- packages/agent-sdk: the strategies of the agents.
pub mod Strategies
