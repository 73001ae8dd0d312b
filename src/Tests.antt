-- ===== src/Tests.antt =====
-- Runs on concrete inputs.
pub mod Runs
pub mod Hands
pub mod Cards
pub mod Stores
pub mod Tables
pub mod Queues
pub mod Histories
pub mod Strategies
pub mod Servers
pub mod Limits
