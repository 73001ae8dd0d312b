-- ===== src/Server/Ws/Admits.antt =====
-- apps/game-server/src/ws-handler.ts: who is registered by a HELLO.
use agent_poker.Base.{
  ℕ, ◌<◌, ◌≡◌, ◌⊎◌, refl, ap, ◌∙◌, any, length, find_by, none, some, Bool, true, false, ◌||◌, ◌&&◌,
  ◌==◌, ==_iff, ltb, ok, inl, inr, arith, Result-cases, or_throw, or_throw-ok, >>=-eq-ok, ok_inj,
  subst, get_key,
}
use agent_poker.History.HashChain.{Text, text_eq}
use agent_poker.History.HashChain.Integrity.{text_eq-eq}
use agent_poker.Server.SeatToken.{Jwt, SeatTokenPayload, verify_seat_token}
use agent_poker.Server.Ws.{
  GameServerWs, ErrorCode, send_error, get_table, get_agent_tables, auth_failed, connection_limit,
  table_limit, invalid_message,
}
use agent_poker.Server.Ws.Hello.{
  WsEnvelope, Admission, admit, given, is_held_by, connections_of, register, greet, handle_hello,
  welcome_message, require,
}
use agent_poker.Server.Ws.Frames.{registry, send-registry}

-- What an admission stands on.
pub record IsAdmitted (jwt : Jwt) (msg : WsEnvelope) (s : GameServerWs) (a : Admission)
    : Type 0 where
  pub asked : msg.hello_payload ≡ some a.payload
  pub named : given msg.table_id ≡ some a.table_id
  pub known : get_table a.table_id s ≡ some a.table
  pub signed :
      verify_seat_token jwt a.payload.seat_token
      ≡ some (record { agent_id = a.payload.agent_id; table_id = a.table_id })
  pub seated : find_by (is_held_by a.payload) a.table.seats ≡ some a.seat
  pub few : connections_of a.payload.agent_id s < 10
  pub fits :
      (any (text_eq a.table_id) (get_agent_tables a.payload.agent_id s) ≡ true)
      ⊎ (length (get_agent_tables a.payload.agent_id s) < 8)

require-ok : (b : Bool) (code : ErrorCode) {u : Unit {0}} → require b code ≡ ok u → b ≡ true
require-ok true code e = refl
require-ok false code e = cc

same_claims :
    (claims : SeatTokenPayload) (agent_id : ℕ) (id : Text)
    → (claims.agent_id == agent_id && text_eq claims.table_id id) ≡ true
    → claims ≡ record { agent_id = agent_id; table_id = id }
same_claims claims agent_id id e =
    let (same, equal) = parts (claims.agent_id == agent_id) (text_eq claims.table_id id) e in
    let named = (==_iff claims.agent_id agent_id).0 same in
    let placed = text_eq-eq claims.table_id id equal in
    λ i. record { agent_id = named i; table_id = placed i }
  where
    parts : (a b : Bool) → (a && b) ≡ true → (a ≡ true) × (b ≡ true)
    parts a b h = ground arith

pub admit-IsAdmitted :
    (jwt : Jwt) (msg : WsEnvelope) (s : GameServerWs) {a : Admission}
    → admit jwt msg s ≡ ok a
    → IsAdmitted jwt msg s a
unfolding admit
admit-IsAdmitted jwt msg s {a} e =
    let (payload, asked, e1) = >>=-eq-ok (or_throw msg.hello_payload auth_failed) _ e in
    let (id, named, e2) = >>=-eq-ok (or_throw (given msg.table_id) invalid_message) _ e1 in
    let (table, known, e3) = >>=-eq-ok (or_throw (get_table id s) invalid_message) _ e2 in
    let (claims, signed, e4) =
      >>=-eq-ok (or_throw (verify_seat_token jwt payload.seat_token) auth_failed) _ e3 in
    let (u, matches, e5) =
      >>=-eq-ok
        (require (claims.agent_id == payload.agent_id && text_eq claims.table_id id) auth_failed) _
        e4 in
    let (seat, held, e6) =
      >>=-eq-ok (or_throw (find_by (is_held_by payload) table.seats) auth_failed) _ e5 in
    let (v, few, e7) =
      >>=-eq-ok (require (ltb (connections_of payload.agent_id s) 10) connection_limit) _ e6 in
    let (w, fits, e8) =
      >>=-eq-ok
        (require
          (any (text_eq id) (get_agent_tables payload.agent_id s)
            || ltb (length (get_agent_tables payload.agent_id s)) 8)
          table_limit)
        _ e7 in
    subst (λ x. IsAdmitted jwt msg s x) (ok_inj e8)
      (record {
        asked = or_throw-ok msg.hello_payload auth_failed asked;
        named = or_throw-ok (given msg.table_id) invalid_message named;
        known = or_throw-ok (get_table id s) invalid_message known;
        signed =
            or_throw-ok (verify_seat_token jwt payload.seat_token) auth_failed signed
            ∙ ap some (same_claims claims payload.agent_id id (require-ok _ auth_failed matches));
        seated = or_throw-ok (find_by (is_held_by payload) table.seats) auth_failed held;
        few = ltb-lt _ _ (require-ok _ connection_limit few);
        fits =
            either (any (text_eq id) (get_agent_tables payload.agent_id s))
              (length (get_agent_tables payload.agent_id s)) (require-ok _ table_limit fits);
      })
  where
    ltb-lt : (a b : ℕ) → ltb a b ≡ true → a < b
    ltb-lt a b h = ground arith

    either : (b : Bool) (n : ℕ) → (b || ltb n 8) ≡ true → (b ≡ true) ⊎ (n < 8)
    either true n h = inl refl
    either false n h = inr (ground arith)

pub greet-registry :
    (ws : ℕ) (a : Admission) (s : GameServerWs) → registry (greet ws a s).0 ≡ registry s
unfolding greet
greet-registry ws a s =
    let buffer = get_key text_eq a.table_id s.event_buffers in
    elim (Result-cases (welcome_message a buffer)) [
      | inl (msg, e) ↦ rw (e, greet) (send-registry ws msg s)
      | inr (x, e) ↦ rw (e, greet) refl
    ]

-- A HELLO is either refused, and then an error is sent and nothing else changes, or it is
-- admitted: its payload is valid, its seat token verifies to its agent and table, the table is
-- there with a seat of that agent and token, the agent had fewer than ten connections, and fewer
-- than eight tables or this one already; then the connections, their counts and the agents' tables
-- are those of the registration.
pub handle_hello-admits :
    (jwt : Jwt) (ws : ℕ) (msg : WsEnvelope) (s : GameServerWs)
    → ((code : ErrorCode) × (handle_hello jwt ws msg s ≡ (send_error ws code s, none)))
      ⊎ ((a : Admission) × IsAdmitted jwt msg s a
          × (registry (handle_hello jwt ws msg s).0 ≡ registry (register ws a s)))
unfolding handle_hello
handle_hello-admits jwt ws msg s = elim (Result-cases (admit jwt msg s)) [
  | inl (a, e) ↦ inr (
    a,
    admit-IsAdmitted jwt msg s e,
    rw (e, handle_hello) (greet-registry ws a (register ws a s)),
  )
  | inr (code, e) ↦ inl (code, rw (e, handle_hello) refl)
]
