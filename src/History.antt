-- ===== src/History.antt =====
-- packages/hand-history: the events of a hand, hashed, stored and played again.
pub mod HashChain
pub mod Replay
pub mod Store
