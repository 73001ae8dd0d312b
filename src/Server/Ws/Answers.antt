-- ===== src/Server/Ws/Answers.antt =====
-- apps/game-server/src/ws-handler.ts: an action is answered.
use agent_poker.Base.{ℕ, ◌≡◌, find_by, length, includes, some, true}
use agent_poker.Server.Ws.{GameServerWs, ConnectedClient, is_client}
use agent_poker.Server.Ws.Hello.{WsEnvelope}
use agent_poker.Server.Ws.Private.{to_socket}

-- How many messages a socket has been sent.
abbrev pub count_sent : ℕ → GameServerWs → ℕ
count_sent ws s = length (to_socket ws s.sent)

module _ (ws : ℕ) where
  module _ (c : ConnectedClient) (msg : WsEnvelope) where
    -- The client acts on an open socket.
    abbrev IsPresent : GameServerWs → Type 0
    IsPresent s = (find_by (is_client ws) s.clients ≡ some c) × (includes ws s.open_sockets ≡ true)
