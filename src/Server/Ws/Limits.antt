-- ===== src/Server/Ws/Limits.antt =====
-- apps/game-server/src/ws-handler.ts: how many connections and tables an agent has.
use agent_poker.Base.{
  ℕ, ◌+◌, ◌≤◌, ◌<◌, ◌≡◌, sym, subst, List, [], ◌∷◌, filter_by, length, length-append, any, Bool,
  true, false, ◌⊎◌, ◌==◌, ==_refl, ==_iff, if◌then◌else◌, inl, inr, Bool-cases, arith, get_key,
  get_key-set_key, number_IsKey, add_to,
}
use agent_poker.History.HashChain.{Text, text_eq}
use agent_poker.Server.SeatToken.{Jwt}
use agent_poker.Server.Ws.{
  GameServerWs, ConnectedClient, put_client, get_agent_tables, tables_or_none,
}
use agent_poker.Server.Ws.Hello.{WsEnvelope, Admission, register, client_of, or_zero}
use agent_poker.Server.Ws.Admits.{IsAdmitted}
use agent_poker.Server.Ws.Frames.{Registry, registry}

abbrev pub is_of : ℕ → ConnectedClient → Bool
is_of id c = c.agent_id == id

-- The connections of an agent.
abbrev pub live : ℕ → List ConnectedClient → ℕ
live id cs = length (filter_by (is_of id) cs)

-- No more connections than counted, no more counted than allowed, and no more tables than allowed.
pub record IsLimited (id : ℕ) (r : Registry) : Type 0 where
  pub counted : live id (r.0) ≤ or_zero (get_key ◌==◌ id (r.1))
  pub few : or_zero (get_key ◌==◌ id (r.1)) ≤ 10
  pub fits : length (tables_or_none (get_key ◌==◌ id (r.2))) ≤ 8

live-put_client :
    (id : ℕ) (c : ConnectedClient) (cs : List ConnectedClient)
    → live id (put_client c cs) ≤ live id cs + (if c.agent_id == id then 1 else 0)
live-put_client id c [] = ground arith
live-put_client id c (d ∷ ds) = ground (arith, live-put_client id c ds)

length-add_to :
    (id : Text) (ids : List Text)
    → (any (text_eq id) ids ≡ true) ⊎ (length ids < 8)
    → length ids ≤ 8
    → length (add_to text_eq id ids) ≤ 8
length-add_to id ids (inl old) h = rw old h
length-add_to id ids (inr less) h = elim (Bool-cases (any (text_eq id) ids)) [
  | inl old ↦ rw old h
  | inr new ↦ rw new (omega (arith, length-append {0} ids (id ∷ [])))
]

-- The agent who is registered.
register_own :
    {jwt : Jwt} {msg : WsEnvelope} (ws : ℕ) (a : Admission) (s : GameServerWs)
    → IsAdmitted jwt msg s a
    → IsLimited a.payload.agent_id (registry s)
    → IsLimited a.payload.agent_id (registry (register ws a s))
unfolding register
register_own ws a s admitted h =
    let id = a.payload.agent_id in
    let more = live-put_client id (client_of ws a) s.clients in
    record {
      counted =
          rw (get_key-set_key ◌==◌ number_IsKey id id, ==_refl id)
            (omega (arith, (rw (==_refl id) at more), h.counted));
      few = rw (get_key-set_key ◌==◌ number_IsKey id id, ==_refl id) (omega (arith, admitted.few));
      fits =
          rw (get_key-set_key ◌==◌ number_IsKey id id, ==_refl id)
            (length-add_to a.table_id (get_agent_tables id s) admitted.fits h.fits);
    }

register_another :
    (id ws : ℕ) (a : Admission) (s : GameServerWs)
    → (a.payload.agent_id == id) ≡ false
    → IsLimited id (registry s)
    → IsLimited id (registry (register ws a s))
unfolding register
register_another id ws a s differs h =
    let agent = a.payload.agent_id in
    let same = live-put_client id (client_of ws a) s.clients in
    record {
      counted =
          rw (get_key-set_key ◌==◌ number_IsKey id agent, differs)
            (omega (arith, (rw differs at same), h.counted));
      few = rw (get_key-set_key ◌==◌ number_IsKey id agent, differs) h.few;
      fits = rw (get_key-set_key ◌==◌ number_IsKey id agent, differs) h.fits;
    }

pub register-IsLimited :
    {jwt : Jwt} {msg : WsEnvelope} (id ws : ℕ) (a : Admission) (s : GameServerWs)
    → IsAdmitted jwt msg s a
    → IsLimited id (registry s)
    → IsLimited id (registry (register ws a s))
register-IsLimited {jwt} {msg} id ws a s admitted h = elim (Bool-cases (a.payload.agent_id == id)) [
  | inr differs ↦ register_another id ws a s differs h
  | inl own ↦
      let e = (==_iff a.payload.agent_id id).0 own in
      subst (λ k. IsLimited k (registry (register ws a s))) e
        (register_own {jwt = jwt} {msg = msg} ws a s admitted
          (subst (λ k. IsLimited k (registry s)) (sym e) h))
]
