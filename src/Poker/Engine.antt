-- ===== src/Poker/Engine.antt =====
-- packages/poker-engine/src/engine.ts: a hand from the deal to the payout.
pub mod State
pub mod Legal
pub mod Finish
pub mod Streets
pub mod Apply
pub mod Create
pub mod Invariant
pub mod Conserve
pub mod Advance
pub mod Amounts
pub mod Moves
pub mod Hands
pub mod Accepted
pub mod Opening
pub mod Play
pub mod Board
pub mod Ends
pub mod Trace
