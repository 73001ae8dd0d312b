-- ===== src/Poker.antt =====
-- packages/poker-engine: the engine of a hand.
pub mod Types
pub mod Deck
pub mod Positions
pub mod SidePots
pub mod Evaluate
pub mod Engine
