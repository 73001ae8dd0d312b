-- ===== src/Server/Ws/Frames.antt =====
-- apps/game-server/src/ws-handler.ts: what sending leaves as it is.
use agent_poker.Base.{
  ℕ, ◌≡◌, refl, sym, ap, ◌∙◌, List, [], ◌∷◌, ◌++◌, map, filter_by, includes, Option, none, some,
  not, ◌&&◌, ◌||◌, ok, Bool-cases, Option-cases, inl, inr, arith, >>=-eq-ok, ok_inj, Result-cases,
  subst,
}
use agent_poker.Base.Append.{append_assoc, append_nil}
use agent_poker.Poker.Types.{GameState, PlayerAction}
use agent_poker.History.HashChain.{Text}
use agent_poker.Server.Table.{TableActor, can_start_hand, TableError, engine}
use agent_poker.Server.Table.Hand.{Processed, process_action, start_hand}
use agent_poker.Server.RateLimiter.{RateCheck, allowed, refused}
use agent_poker.Server.Ws.{
  GameServerWs, ConnectedClient, Message, error_message, ack, auth_failed, internal,
  invalid_message, hand_complete, too_many_actions, send, send_each, broadcast_to_table,
  terminate_table, at_table, get_table, get_client,
}
use agent_poker.Server.Ws.Views.{broadcast_state, positions_of, view_message}
use agent_poker.Server.Ws.Hello.{WsEnvelope, given}
use agent_poker.Server.Ws.Play.{
  store_table, start_at, try_start_hand, action_failed, action_done, act_at, act_for, handle_action,
  error_code, finished, player_action, has_hand,
}

-- The messages that clients of a table are sent on open sockets.
abbrev pub addressed :
    Text → (ConnectedClient → Message) → List ConnectedClient → List ℕ → List (ℕ × Message)
addressed id msg cs sockets =
    map (λ (c : ConnectedClient). (c.ws, msg c))
      (filter_by (λ c. at_table id c && includes c.ws sockets) cs)

pub send_each_lem :
    (id : Text) (msg : ConnectedClient → Message) (cs : List ConnectedClient) (s : GameServerWs)
    → send_each id msg cs s ≡ record s { sent = s.sent ++ addressed id msg cs s.open_sockets }
unfolding send_each send
send_each_lem id msg [] s = ap (λ l. record s { sent = l }) (sym (append_nil s.sent))
send_each_lem id msg (c ∷ cs) s = elim (Bool-cases (at_table id c)) [
  | inl here ↦ elim (Bool-cases (includes c.ws s.open_sockets)) [
    | inl reached ↦
        rw (here, reached)
          (send_each_lem id msg cs (record s { sent = s.sent ++ (c.ws, msg c) ∷ [] })
            ∙ ap (λ l. record s { sent = l })
                (append_assoc s.sent ((c.ws, msg c) ∷ []) (addressed id msg cs s.open_sockets)))
    | inr shut ↦ rw (here, shut) (send_each_lem id msg cs s)
  ]
  | inr away ↦ rw away (send_each_lem id msg cs s)
]

-- Who is connected, how often, and for which tables.
abbrev pub Registry : Type 0
Registry = List ConnectedClient × List (ℕ × ℕ) × List (ℕ × List Text)

abbrev pub registry : GameServerWs → Registry
registry s = (s.clients, s.agent_connection_count, s.agent_to_tables)

pub send-registry :
    (ws : ℕ) (msg : Message) (s : GameServerWs) → registry (send ws msg s) ≡ registry s
unfolding send
send-registry ws msg s = ground arith

pub send_each-registry :
    (id : Text) (msg : ConnectedClient → Message) (cs : List ConnectedClient) (s : GameServerWs)
    → registry (send_each id msg cs s) ≡ registry s
send_each-registry id msg cs s = ap registry (send_each_lem id msg cs s)

pub terminate_table-registry :
    (id : Text) (s : GameServerWs) → registry (terminate_table id s) ≡ registry s
unfolding terminate_table
terminate_table-registry id s = rw send_each_lem refl

-- A broadcast that does not throw only sends.
pub broadcast_state-registry :
    (id : Text) (state : GameState) (s : GameServerWs) {t : GameServerWs}
    → broadcast_state id state s ≡ ok t
    → registry t ≡ registry s
unfolding broadcast_state
broadcast_state-registry id state s {t} e =
    let (positions, known, sent) = >>=-eq-ok (positions_of state) _ e in
    ap registry (sym (ok_inj sent))
    ∙ send_each-registry id (view_message state positions) s.clients s

start_at-registry :
    (id : Text) (t : TableActor) (s : GameServerWs) → registry (start_at id t s) ≡ registry s
unfolding start_at
start_at-registry id t s = elim (Result-cases ((start_hand t).1)) [
  | inr (x, e) ↦ rw (e, start_at) refl
  | inl (r, e) ↦
      let started = store_table id (start_hand t).0 s in
      rw (e, start_at)
        (elim (Result-cases (broadcast_state id (r.0) started)) [
          | inl (after, told) ↦ rw told (broadcast_state-registry id (r.0) started told)
          | inr (x, thrown) ↦ rw thrown refl
        ])
]

pub try_start_hand-registry :
    (id : Text) (s : GameServerWs) → registry (try_start_hand id s) ≡ registry s
unfolding try_start_hand
try_start_hand-registry id s = elim (Option-cases (get_table id s)) [
  | inl missing ↦ rw (missing, try_start_hand) refl
  | inr (t, found) ↦
      rw (found, try_start_hand)
        (elim (Bool-cases (not (can_start_hand t) || has_hand t.current_state)) [
          | inl idle ↦ rw idle refl
          | inr ready ↦ rw ready (start_at-registry id t s)
        ])
]

-- The handling of an action, by what each of its steps does: `Goes s t` says of a server `s` that
-- becomes `t` what is to be shown, and `IsAway` what is needed of the clients.
module _ (Goes : GameServerWs → GameServerWs → Type 0) (stays : (s : GameServerWs) → Goes s s)
    (then_goes : (s t u : GameServerWs) → Goes s t → Goes t u → Goes s u) (ws : ℕ)
    (c : ConnectedClient) (IsAway : List ConnectedClient → Type 0)
    (by_send : (msg : Message) (s : GameServerWs) → Goes s (send ws msg s))
    (by_each : (msg : ConnectedClient → Message) (s : GameServerWs)
      → IsAway s.clients
      → Goes s (send_each c.table_id msg s.clients s))
    (by_end : (s : GameServerWs) → IsAway s.clients → Goes s (terminate_table c.table_id s))
    (by_store : (action : PlayerAction) (request : Option Text) (seq : Option ℕ) (t : TableActor)
        (s : GameServerWs)
      → get_table c.table_id s ≡ some t
      → Goes s (store_table c.table_id (process_action c.agent_id action request seq t).0 s))
    (by_timer : (ids : List Text) (s : GameServerWs)
      → Goes s (record s { next_hand_timers = ids })) where
  action_failed-Goes :
      (msg : WsEnvelope) (e : TableError) (s : GameServerWs)
      → IsAway s.clients
      → Goes s (action_failed ws c msg e s)
  unfolding action_failed
  action_failed-Goes msg e s away = elim (Option-cases (error_code e)) [
    | inl plain ↦ rw (plain, action_failed) (by_end s away)
    | inr (code, known) ↦ rw (known, action_failed) (by_send (error_message code msg.request_id) s)
  ]

  finished-Goes :
      (state : GameState) (s : GameServerWs)
      → IsAway s.clients
      → Goes s (finished c.table_id state s)
  unfolding finished broadcast_to_table
  finished-Goes state s away = elim (Bool-cases state.is_hand_complete) [
    | inr on ↦ rw (on, finished) (stays s)
    | inl over ↦
        let told = hand_complete state.hand_id state.winners state.result_summary in
        rw (over, finished)
          (then_goes _ _ _ (by_each (λ _. told) s away)
            (by_timer _ (broadcast_to_table c.table_id told s)))
  ]

  action_done-Goes :
      (msg : WsEnvelope) (p : Processed) (s : GameServerWs)
      → IsAway s.clients
      → Goes s (action_done ws c msg p s)
  unfolding action_done broadcast_state
  action_done-Goes msg p s away =
      let answer = ack (given msg.request_id) p.already_processed in
      let acked = send ws answer s in
      let sent = by_send answer s in
      let still : IsAway acked.clients =
        subst IsAway (sym (ap (λ (r : Registry). r.0) (send-registry ws answer s))) away in
      elim (Result-cases (positions_of p.state)) [
        | inr (x, e) ↦
            rw (e, action_done)
              (then_goes _ _ _ sent (action_failed-Goes msg (engine x) acked still))
        | inl (positions, e) ↦
            let told = send_each c.table_id (view_message p.state positions) acked.clients acked in
            let there : IsAway told.clients =
              subst IsAway
                (sym (
                  ap (λ (r : Registry). r.0)
                    (send_each-registry c.table_id (view_message p.state positions) acked.clients
                      acked)))
                still in
            rw (e, action_done)
              (then_goes _ _ _ sent (
                then_goes _ _ _ (by_each (view_message p.state positions) acked still)
                  (finished-Goes p.state told there)))
      ]

  act_at-Goes :
      (msg : WsEnvelope) (action : PlayerAction) (t : TableActor) (s : GameServerWs)
      → get_table c.table_id s ≡ some t
      → IsAway s.clients
      → Goes s (act_at ws c msg action t s)
  unfolding act_at
  act_at-Goes msg action t s here away =
      let r = process_action c.agent_id action msg.request_id msg.seq t in
      let stored = by_store action msg.request_id msg.seq t s here in
      elim (Result-cases (r.1)) [
        | inl (p, e) ↦
            rw (e, act_at)
              (then_goes _ _ _ stored (action_done-Goes msg p (store_table c.table_id r.0 s) away))
        | inr (x, e) ↦
            rw (e, act_at)
              (then_goes _ _ _ stored
                (action_failed-Goes msg x (store_table c.table_id r.0 s) away))
      ]

  act_for-Goes :
      (msg : WsEnvelope) (s : GameServerWs) → IsAway s.clients → Goes s (act_for ws c msg s)
  unfolding act_for
  act_for-Goes msg s away = elim (Option-cases (get_table c.table_id s)) [
    | inl missing ↦ rw (missing, act_for) (by_send (error_message internal none) s)
    | inr (t, found) ↦ elim (Option-cases msg.action_payload) [
      | inl bad ↦
          rw (found, bad, act_for) (by_send (error_message invalid_message msg.request_id) s)
      | inr (p, e) ↦ rw (found, e, act_for) (act_at-Goes msg (player_action p) t s found away)
    ]
  ]

  pub handle_action-Goes :
      (check : RateCheck) (msg : WsEnvelope) (s : GameServerWs)
      → get_client ws s ≡ some c
      → IsAway s.clients
      → Goes s (handle_action check ws msg s)
  unfolding handle_action
  handle_action-Goes allowed msg s known away = rw (known, handle_action) (act_for-Goes msg s away)
  handle_action-Goes (refused wait) msg s known away =
      rw (known, handle_action) (by_send (too_many_actions wait msg.request_id) s)

pub handle_action-registry :
    (check : RateCheck) (ws : ℕ) (msg : WsEnvelope) (s : GameServerWs)
    → registry (handle_action check ws msg s) ≡ registry s
unfolding handle_action
handle_action-registry check ws msg s = elim (Option-cases (get_client ws s)) [
  | inl unknown ↦ rw (unknown, handle_action) (send-registry ws (error_message auth_failed none) s)
  | inr (c, known) ↦
      handle_action-Goes (λ s t. registry t ≡ registry s) (λ s. refl) (λ s t u p q. q ∙ p) ws c
        (λ _. Unit {0}) (send-registry ws)
        (λ msg s _. send_each-registry c.table_id msg s.clients s)
        (λ s _. terminate_table-registry c.table_id s) (λ action request seq t s _. refl)
        (λ ids s. refl) check msg s known tt
]
