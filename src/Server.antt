-- ===== src/Server.antt =====
-- apps/game-server: the table, and the buffer of events behind it.
pub mod RingBuffer
pub mod RateLimiter
pub mod SeatToken
pub mod Table
pub mod Ws
