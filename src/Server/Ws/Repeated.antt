-- ===== src/Server/Ws/Repeated.antt =====
-- apps/game-server/src/ws-handler.ts: a client that says HELLO again, and one of two that leaves.
use agent_poker.Base.{
  ℕ, ◌+◌, ◌≡◌, refl, sym, ap, ◌∙◌, List, [], ◌∷◌, find_by, some, ◌==◌, ==_refl, inl, inr,
  Bool-cases, ok, arith, get_key, set_key, get_key-set_key, number_IsKey,
}
use agent_poker.Base.Laws.{some_inj}
use agent_poker.Server.SeatToken.{Jwt}
use agent_poker.Server.Ws.{GameServerWs, ConnectedClient, get_client, is_client, put_client}
use agent_poker.Server.Ws.Hello.{
  WsEnvelope, Admission, admit, register, client_of, connections_of, or_zero, handle_hello,
}
use agent_poker.Server.Ws.Admits.{greet-registry}
use agent_poker.Server.Ws.Frames.{Registry}
use agent_poker.Server.Ws.Limits.{live}

live-put_again :
    (id : ℕ) (c d : ConnectedClient) (cs : List ConnectedClient)
    → find_by (is_client c.ws) cs ≡ some d
    → c.agent_id ≡ d.agent_id
    → live id (put_client c cs) ≡ live id cs
live-put_again id c d [] e same = cc
live-put_again id c d (x ∷ xs) e same = elim (Bool-cases (x.ws == c.ws)) [
  | inl here ↦
      let it : x ≡ d = some_inj (rw here at e) in
      let own = same ∙ sym (ap (λ (y : ConnectedClient). y.agent_id) it) in
      rw (here, own) (ground arith)
  | inr later ↦ rw later (ground (arith, live-put_again id c d xs (rw later at e)))
]

counted_again :
    (i j : ℕ) (counts : List (ℕ × ℕ))
    → i ≡ j
    → or_zero (get_key ◌==◌ j (set_key ◌==◌ i (or_zero (get_key ◌==◌ i counts) + 1) counts))
      ≡ or_zero (get_key ◌==◌ j counts) + 1
counted_again i j counts e = rw (e, get_key-set_key ◌==◌ number_IsKey j j, ==_refl j) refl

-- If a socket that is registered for an agent has another HELLO of that agent admitted, the
-- agent's connections stay as many as they were, and one more is counted.
pub handle_hello-again :
    (jwt : Jwt) (ws : ℕ) (msg : WsEnvelope) (s : GameServerWs) (a : Admission) (c : ConnectedClient)
    → admit jwt msg s ≡ ok a
    → get_client ws s ≡ some c
    → c.agent_id ≡ a.payload.agent_id
    → (live c.agent_id (handle_hello jwt ws msg s).0.clients ≡ live c.agent_id s.clients)
      × (connections_of c.agent_id (handle_hello jwt ws msg s).0 ≡ connections_of c.agent_id s + 1)
unfolding handle_hello register
handle_hello-again jwt ws msg s a c admitted known same =
    let id = a.payload.agent_id in
    let after = greet-registry ws a (register ws a s) in
    rw (admitted, handle_hello)
      (
        ap (λ (r : Registry). live c.agent_id r.0) after
            ∙ live-put_again c.agent_id (client_of ws a) c s.clients known (sym same),
        ap (λ (r : Registry). or_zero (get_key ◌==◌ c.agent_id r.1)) after
            ∙ counted_again id c.agent_id s.agent_connection_count (sym same),
      )
