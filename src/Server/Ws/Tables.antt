-- ===== src/Server/Ws/Tables.antt =====
-- apps/game-server/src/ws-handler.ts: what every table of a server keeps.
use agent_poker.Base.{
  ℕ, ◌≡◌, List, [], ◌∷◌, map, filter_by, update_by, Option, none, some, Bool, not, ◌||◌, inl, inr,
  Bool-cases, Option-cases, Result-cases, All, arith, get_key,
}
use agent_poker.Base.Laws.{find_by-All}
use agent_poker.Poker.Types.{PlayerAction}
use agent_poker.History.HashChain.{Text, text_eq}
use agent_poker.Server.RateLimiter.{RateCheck}
use agent_poker.Server.SeatToken.{Jwt, refresh_seat_token}
use agent_poker.Server.Table.{TableActor, can_start_hand, add_seat, remove_seat}
use agent_poker.Server.Table.Hand.{start_hand, process_action, handle_timeout, close}
use agent_poker.Server.Ws.{
  GameServerWs, ConnectedClient, Message, get_table, get_client, is_table, put_table, pong, send,
  send_each, terminate_table,
}
use agent_poker.Server.Ws.Views.{broadcast_state, positions_of, view_message}
use agent_poker.Server.Ws.Hello.{
  WsEnvelope, MessageType, hello, action, ping, refresh_token, other, admit, register, greet,
  handle_hello, welcome_message,
}
use agent_poker.Server.Ws.Frames.{send_each_lem, handle_action-Goes}
use agent_poker.Server.Ws.Play.{
  handle_action, handle_refresh_token, renew, renew_seat, start_at, try_start_hand, store_table,
  has_hand,
}
use agent_poker.Server.Ws.Server.{dispatch}

-- A property of tables that every call of the server keeps.
pub record IsKept (P : TableActor → Type 0) : Type 0 where
  pub starts : (t : TableActor) → P t → P (start_hand t).0
  pub acts :
      (id : ℕ) (action : PlayerAction) (request : Option Text) (seq : Option ℕ) (t : TableActor)
      → P t
      → P (process_action id action request seq t).0
  pub times_out : (request : Text) (t : TableActor) → P t → P (handle_timeout request t).0
  pub joins : (id token buy_in : ℕ) (t : TableActor) → P t → P (add_seat id token buy_in t).0
  pub leaves : (id : ℕ) (t : TableActor) → P t → P (remove_seat id t)
  pub renews : (id token : ℕ) (t : TableActor) → P t → P (renew_seat id token t)
  pub closes : (t : TableActor) → P t → P (close t)

module _ (P : TableActor → Type 0) where
  pub put_table-All :
      (t : TableActor) (ts : List TableActor) → P t → All P ts → All P (put_table t ts)
  put_table-All t [] p h = (p, tt)
  put_table-All t (x ∷ xs) p h = ground (arith, put_table-All t xs p h.1)

  update_by-All :
      (p : TableActor → Bool) (f : TableActor → TableActor) (ts : List TableActor)
      → ((t : TableActor) → P t → P (f t))
      → All P ts
      → All P (update_by p f ts)
  update_by-All p f [] k h = tt
  update_by-All p f (x ∷ xs) k h = ground (arith, k x h.0, update_by-All p f xs k h.1)

  filter_by-All : (p : TableActor → Bool) (ts : List TableActor) → All P ts → All P (filter_by p ts)
  filter_by-All p [] h = tt
  filter_by-All p (x ∷ xs) h = ground (arith, filter_by-All p xs h.1)

  pub map-All :
      (f : TableActor → TableActor) (ts : List TableActor)
      → ((t : TableActor) → P t → P (f t))
      → All P ts
      → All P (map f ts)
  map-All f [] k h = tt
  map-All f (x ∷ xs) k h = (k x h.0, map-All f xs k h.1)

  -- A step that keeps the property at every table.
  abbrev pub Keeps : GameServerWs → GameServerWs → Type 0
  Keeps s t = All P s.tables → All P t.tables

  pub send-Keeps : (ws : ℕ) (msg : Message) (s : GameServerWs) → Keeps s (send ws msg s)
  unfolding send
  send-Keeps ws msg s h = ground (arith, h)

  send_each-Keeps :
      (id : Text) (msg : ConnectedClient → Message) (cs : List ConnectedClient) (s : GameServerWs)
      → Keeps s (send_each id msg cs s)
  send_each-Keeps id msg cs s h = rw (send_each_lem id msg cs s) h

  terminate_table-Keeps : (id : Text) (s : GameServerWs) → Keeps s (terminate_table id s)
  unfolding terminate_table
  terminate_table-Keeps id s h =
      filter_by-All (λ t. not (is_table id t)) _ (send_each-Keeps id _ s.clients s h)

  module _ (kept : IsKept P) where
    found-P :
        (id : Text) (s : GameServerWs) {t : TableActor}
        → get_table id s ≡ some t
        → All P s.tables
        → P t
    found-P id s e h = (find_by-All P (is_table id) s.tables h e).0

    -- A call of a table that is there.
    pub stored-Keeps :
        (id : Text) (t : TableActor) (f : TableActor → TableActor) (s : GameServerWs)
        → ((u : TableActor) → P u → P (f u))
        → get_table id s ≡ some t
        → Keeps s (store_table id (f t) s)
    stored-Keeps id t f s k e h =
        update_by-All (is_table id) (λ _. f t) s.tables (λ _ _. k t (found-P id s e h)) h

    start_at-Keeps :
        (id : Text) (t : TableActor) (s : GameServerWs)
        → get_table id s ≡ some t
        → Keeps s (start_at id t s)
    unfolding start_at broadcast_state
    start_at-Keeps id t s found h =
        let started = store_table id (start_hand t).0 s in
        let all = stored-Keeps id t (λ u. (start_hand u).0) s kept.starts found h in
        elim (Result-cases ((start_hand t).1)) [
          | inr (x, e) ↦ rw (e, start_at) all
          | inl (r, e) ↦
              rw (e, start_at)
                (elim (Result-cases (positions_of (r.0))) [
                  | inl (positions, known) ↦
                      rw known
                        (send_each-Keeps id (view_message (r.0) positions) s.clients started all)
                  | inr (x, thrown) ↦ rw thrown all
                ])
        ]

    pub try_start_hand-Keeps : (id : Text) (s : GameServerWs) → Keeps s (try_start_hand id s)
    unfolding try_start_hand
    try_start_hand-Keeps id s h = elim (Option-cases (get_table id s)) [
      | inl missing ↦ rw (missing, try_start_hand) h
      | inr (t, found) ↦
          rw (found, try_start_hand)
            (elim (Bool-cases (not (can_start_hand t) || has_hand t.current_state)) [
              | inl idle ↦ rw idle h
              | inr ready ↦ rw ready (start_at-Keeps id t s found h)
            ])
    ]

    pub handle_action-Keeps :
        (check : RateCheck) (ws : ℕ) (msg : WsEnvelope) (s : GameServerWs)
        → Keeps s (handle_action check ws msg s)
    unfolding handle_action
    handle_action-Keeps check ws msg s = elim (Option-cases (get_client ws s)) [
      | inl unknown ↦ rw (unknown, handle_action) (send-Keeps ws _ s)
      | inr (c, known) ↦
          handle_action-Goes Keeps (λ s h. h) (λ s t u p q h. q (p h)) ws c (λ _. Unit {0})
            (send-Keeps ws) (λ msg s _. send_each-Keeps c.table_id msg s.clients s)
            (λ s _. terminate_table-Keeps c.table_id s)
            (λ action request seq t s found.
              stored-Keeps c.table_id t (λ u. (process_action c.agent_id action request seq u).0) s
                (kept.acts c.agent_id action request seq) found)
            (λ ids s h. h) check msg s known tt
    ]

    renew-Keeps :
        (ws : ℕ) (c : ConnectedClient) (token : ℕ) (s : GameServerWs) → Keeps s (renew ws c token s)
    unfolding renew
    renew-Keeps ws c token s h =
        update_by-All (is_table c.table_id) (renew_seat c.agent_id token) s.tables
          (kept.renews c.agent_id token) h

    handle_refresh_token-Keeps :
        (jwt : Jwt) (ws : ℕ) (s : GameServerWs) → Keeps s (handle_refresh_token jwt ws s)
    unfolding handle_refresh_token
    handle_refresh_token-Keeps jwt ws s h = elim (Option-cases (get_client ws s)) [
      | inl unknown ↦ rw (unknown, handle_refresh_token) (send-Keeps ws _ s h)
      | inr (c, known) ↦ elim (Option-cases (refresh_seat_token jwt c.seat_token none)) [
        | inl old ↦ rw (known, old, handle_refresh_token) (send-Keeps ws _ s h)
        | inr (token, new) ↦
            rw (known, new, handle_refresh_token)
              (send-Keeps ws _ (renew ws c token s) (renew-Keeps ws c token s h))
      ]
    ]

    handle_hello-Keeps :
        (jwt : Jwt) (ws : ℕ) (msg : WsEnvelope) (s : GameServerWs)
        → Keeps s (handle_hello jwt ws msg s).0
    unfolding handle_hello greet register
    handle_hello-Keeps jwt ws msg s h = elim (Result-cases (admit jwt msg s)) [
      | inr (code, e) ↦ rw (e, handle_hello) (send-Keeps ws _ s h)
      | inl (a, e) ↦
          let buffer = get_key text_eq a.table_id (register ws a s).event_buffers in
          rw (e, handle_hello)
            (elim (Result-cases (welcome_message a buffer)) [
              | inr (x, thrown) ↦ rw (thrown, greet) h
              | inl (answer, known) ↦ rw (known, greet) (send-Keeps ws answer (register ws a s) h)
            ])
    ]

    pub dispatch-Keeps :
        (type : MessageType) (check : RateCheck) (jwt : Jwt) (ws : ℕ) (msg : WsEnvelope)
        (s : GameServerWs)
        → Keeps s (dispatch type check jwt ws msg s).0
    unfolding dispatch
    dispatch-Keeps hello check jwt ws msg s h = handle_hello-Keeps jwt ws msg s h
    dispatch-Keeps action check jwt ws msg s h = handle_action-Keeps check ws msg s h
    dispatch-Keeps ping check jwt ws msg s h = send-Keeps ws pong s h
    dispatch-Keeps refresh_token check jwt ws msg s h = handle_refresh_token-Keeps jwt ws s h
    dispatch-Keeps other check jwt ws msg s h = send-Keeps ws _ s h
