-- ===== src/Lobby.antt =====
-- apps/lobby-api: the queue of agents who wait for a table.
pub mod Matchmaking
