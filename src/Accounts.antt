-- ===== src/Accounts.antt =====
-- packages/adapters-ledger: the chip accounts of the agents.
pub mod Ledger
