-- ===== src/Server/Ws/Play.antt =====
-- apps/game-server/src/ws-handler.ts: hands that are started, actions, and tokens that are renewed.
use agent_poker.Base.{
  ℕ, [], ◌∷◌, ◌++◌, update_by, Option, none, some, Bool, true, false, not, ◌||◌, if◌then◌else◌,
  Result, ok, err,
}
use agent_poker.Poker.Types.{
  GameState, PlayerAction, EngineError, not_your_turn, invalid_action, hand_already_complete,
  raise_cap_reached, deck_exhausted, bad_player_count, dealer_not_seated, type_error,
}
use agent_poker.History.HashChain.{Text}
use agent_poker.Server.RateLimiter.{RateCheck, allowed, refused}
use agent_poker.Server.SeatToken.{Jwt, refresh_seat_token}
use agent_poker.Server.Table.{
  TableActor, TableError, table_full, already_seated, cannot_start, no_active_hand, replay_detected,
  engine, can_start_hand, of_agent,
}
use agent_poker.Server.Table.Hand.{Processed, start_hand, process_action}
use agent_poker.Server.Ws.{
  GameServerWs, ConnectedClient, ErrorCode, auth_failed, invalid_message, internal, replay, poker,
  error_message, too_many_actions, ack, hand_complete, token_refreshed, get_table, get_client,
  is_table, is_client, send, send_error, broadcast_to_table, terminate_table,
}
use agent_poker.Server.Ws.Views.{broadcast_state}
use agent_poker.Server.Ws.Hello.{WsEnvelope, ActionPayload, given}

-- What a method does to a table object.
abbrev pub store_table : Text → TableActor → GameServerWs → GameServerWs
store_table id t s = record s { tables = update_by (is_table id) (λ _. t) s.tables }

abbrev pub has_hand : Option GameState → Bool
has_hand none = false
has_hand (some state) = true

abbrev pub kept_unless : GameServerWs → Result EngineError GameServerWs → GameServerWs
kept_unless s (ok after) = after
kept_unless s (err e) = s

-- Errors are caught, and what was written before stays.
unfoldable pub start_at : Text → TableActor → GameServerWs → GameServerWs
start_at id t s =
    let started = store_table id (start_hand t).0 s in
    elim ((start_hand t).1) [
      | err e ↦ started
      | ok r ↦ kept_unless started (broadcast_state id (r.0) started)
    ]

unfoldable pub try_start_hand : Text → GameServerWs → GameServerWs
try_start_hand id s = elim (get_table id s) [
  | none ↦ s
  | some t ↦ if not (can_start_hand t) || has_hand t.current_state then s else start_at id t s
]

-- The code of a `PokerError`; other errors have none.
abbrev pub engine_code : EngineError → Option ErrorCode
engine_code not_your_turn = some (poker not_your_turn)
engine_code invalid_action = some (poker invalid_action)
engine_code hand_already_complete = some (poker hand_already_complete)
engine_code raise_cap_reached = some (poker raise_cap_reached)
engine_code deck_exhausted = none
engine_code bad_player_count = none
engine_code dealer_not_seated = none
engine_code type_error = none

abbrev pub error_code : TableError → Option ErrorCode
error_code table_full = none
error_code already_seated = none
error_code cannot_start = none
error_code no_active_hand = none
error_code replay_detected = some replay
error_code (engine e) = engine_code e

-- `catch (err)`: other errors end the table.
unfoldable pub action_failed :
    ℕ → ConnectedClient → WsEnvelope → TableError → GameServerWs → GameServerWs
action_failed ws c msg e s = elim (error_code e) [
  | some code ↦ send ws (error_message code msg.request_id) s
  | none ↦ terminate_table c.table_id s
]

unfoldable pub finished : Text → GameState → GameServerWs → GameServerWs
finished id state s =
    if state.is_hand_complete
    then (let told : GameServerWs =
          broadcast_to_table id (hand_complete state.hand_id state.winners state.result_summary)
            s in
        record told { next_hand_timers = told.next_hand_timers ++ id ∷ [] })
    else s

unfoldable pub action_done :
    ℕ → ConnectedClient → WsEnvelope → Processed → GameServerWs → GameServerWs
action_done ws c msg p s =
    let acked = send ws (ack (given msg.request_id) p.already_processed) s in
    elim (broadcast_state c.table_id p.state acked) [
      | err e ↦ action_failed ws c msg (engine e) acked
      | ok told ↦ finished c.table_id p.state told
    ]

abbrev pub player_action : ActionPayload → PlayerAction
player_action p = record { type = p.action; amount = p.amount }

unfoldable pub act_at :
    ℕ → ConnectedClient → WsEnvelope → PlayerAction → TableActor → GameServerWs → GameServerWs
act_at ws c msg action t s =
    let r = process_action c.agent_id action msg.request_id msg.seq t in
    let stored = store_table c.table_id r.0 s in
    elim (r.1) [ ok p ↦ action_done ws c msg p stored | err e ↦ action_failed ws c msg e stored ]

unfoldable pub act_for : ℕ → ConnectedClient → WsEnvelope → GameServerWs → GameServerWs
act_for ws c msg s = elim (get_table c.table_id s) [
  | none ↦ send_error ws internal s
  | some t ↦ elim (msg.action_payload) [
    | none ↦ send ws (error_message invalid_message msg.request_id) s
    | some p ↦ act_at ws c msg (player_action p) t s
  ]
]

-- `check` is what the limiter answers to `tryConsume` for the client's agent and `action`; it is
-- awaited before the table is looked up.
unfoldable pub handle_action : RateCheck → ℕ → WsEnvelope → GameServerWs → GameServerWs
handle_action check ws msg s = elim (get_client ws s) [
  | none ↦ send_error ws auth_failed s
  | some c ↦ elim check [
    | refused wait ↦ send ws (too_many_actions wait msg.request_id) s
    | allowed ↦ act_for ws c msg s
  ]
]

abbrev pub renew_seat : ℕ → ℕ → TableActor → TableActor
renew_seat agent_id token t = record t {
  seats = update_by (of_agent agent_id) (λ seat. record seat { seat_token = token }) t.seats;
}

-- The token is written to the first seat of the agent, whatever its status.
unfoldable pub renew : ℕ → ConnectedClient → ℕ → GameServerWs → GameServerWs
renew ws c token s = record s {
  clients = update_by (is_client ws) (λ client. record client { seat_token = token }) s.clients;
  tables = update_by (is_table c.table_id) (renew_seat c.agent_id token) s.tables;
}

unfoldable pub handle_refresh_token : Jwt → ℕ → GameServerWs → GameServerWs
handle_refresh_token jwt ws s = elim (get_client ws s) [
  | none ↦ send_error ws auth_failed s
  | some c ↦ elim (refresh_seat_token jwt c.seat_token none) [
    | none ↦ send_error ws auth_failed s
    | some token ↦ send ws (token_refreshed token) (renew ws c token s)
  ]
]
