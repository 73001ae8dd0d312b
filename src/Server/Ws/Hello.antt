-- ===== src/Server/Ws/Hello.antt =====
-- apps/game-server/src/ws-handler.ts: `handleHello`. Of a message's payload there is what the schemas
-- make of it, `none` if they refuse it.
use agent_poker.Base.{
  ℕ, ◌+◌, List, [], ◌∷◌, any, find_by, Option, none, some, Bool, true, false, ◌&&◌, ◌||◌, ◌==◌, ltb,
  length, Result, ok, err, ◌>>=◌, or_throw, get_key, set_key, add_to,
}
use agent_poker.Poker.Types.{GameState, EngineError, Outcome, ActionType}
use agent_poker.Poker.Positions.{Position}
use agent_poker.History.HashChain.{Text, text_eq}
use agent_poker.Server.RingBuffer.{
  EventRingBuffer, BufferedEvent, get_events_since, get_latest_event_id,
}
use agent_poker.Server.SeatToken.{Jwt, verify_seat_token}
use agent_poker.Server.Table.{TableActor, SeatInfo}
use agent_poker.Server.Ws.{
  GameServerWs, ConnectedClient, ErrorCode, auth_failed, invalid_message, connection_limit,
  table_limit, Message, welcome, View, get_table, get_agent_tables, put_client, send, send_error,
  max_connections_per_agent, max_tables_per_agent,
}
use agent_poker.Server.Ws.Views.{sanitize_state_for_player, positions_of}

pub data MessageType : Type 0 where
  hello action ping refresh_token other : MessageType

pub record HelloPayload : Type 0 where
  pub agent_id : ℕ
  pub seat_token : ℕ
  pub last_seen_event_id : Option ℕ

pub record ActionPayload : Type 0 where
  pub action : ActionType
  pub amount : Option ℕ

pub record WsEnvelope : Type 0 where
  pub protocol_version : ℕ
  pub type : MessageType
  pub request_id : Option Text
  pub table_id : Option Text
  pub seq : Option ℕ
  pub hello_payload : Option HelloPayload
  pub action_payload : Option ActionPayload

-- An empty text is as good as none.
abbrev pub given : Option Text → Option Text
given none = none
given (some []) = none
given (some (c ∷ cs)) = some (c ∷ cs)

abbrev pub or_zero : Option ℕ → ℕ
or_zero none = 0
or_zero (some n) = n

abbrev pub connections_of : ℕ → GameServerWs → ℕ
connections_of agent_id s = or_zero (get_key ◌==◌ agent_id s.agent_connection_count)

-- A seat with the agent and the token of the request.
abbrev pub is_held_by : HelloPayload → SeatInfo → Bool
is_held_by p seat = seat.agent_id == p.agent_id && seat.seat_token == p.seat_token

abbrev pub require : Bool → ErrorCode → Result ErrorCode (Unit {0})
require true code = ok tt
require false code = err code

-- The table and the seat of a request that passes the checks.
pub record Admission : Type 0 where
  pub payload : HelloPayload
  pub table_id : Text
  pub table : TableActor
  pub seat : SeatInfo

unfoldable pub admit : Jwt → WsEnvelope → GameServerWs → Result ErrorCode Admission
admit jwt msg s = do
  payload ← or_throw msg.hello_payload auth_failed
  id ← or_throw (given msg.table_id) invalid_message
  table ← or_throw (get_table id s) invalid_message
  claims ← or_throw (verify_seat_token jwt payload.seat_token) auth_failed
  matches ← require (claims.agent_id == payload.agent_id && text_eq claims.table_id id) auth_failed
  seat ← or_throw (find_by (is_held_by payload) table.seats) auth_failed
  few ← require (ltb (connections_of payload.agent_id s) max_connections_per_agent) connection_limit
  fits ←
      require
        (any (text_eq id) (get_agent_tables payload.agent_id s)
          || ltb (length (get_agent_tables payload.agent_id s)) max_tables_per_agent)
        table_limit
  ok (record { payload = payload; table_id = id; table = table; seat = seat })

abbrev pub client_of : ℕ → Admission → ConnectedClient
client_of ws a = record {
  ws = ws;
  agent_id = a.payload.agent_id;
  table_id = a.table_id;
  seat_token = a.payload.seat_token;
  last_seen_event_id = a.payload.last_seen_event_id;
}

unfoldable pub register : ℕ → Admission → GameServerWs → GameServerWs
register ws a s = record s {
  clients = put_client (client_of ws a) s.clients;
  agent_to_ws = set_key ◌==◌ a.payload.agent_id ws s.agent_to_ws;
  agent_connection_count =
      set_key ◌==◌ a.payload.agent_id (connections_of a.payload.agent_id s + 1)
        s.agent_connection_count;
  agent_to_tables =
      set_key ◌==◌ a.payload.agent_id
        (add_to text_eq a.table_id (get_agent_tables a.payload.agent_id s)) s.agent_to_tables;
}

-- The events since the last one seen: `none` if no delta is asked for, `some none` if the buffer
-- does not reach back so far.
abbrev pub delta_of : Option ℕ → Option EventRingBuffer → Option (Option (List BufferedEvent))
delta_of none buffer = none
delta_of (some last) none = none
delta_of (some last) (some buffer) = some (get_events_since buffer last)

abbrev unless_empty : Option (Option (List BufferedEvent)) → Option (List BufferedEvent)
unless_empty none = none
unless_empty (some none) = none
unless_empty (some (some [])) = none
unless_empty (some (some (e ∷ es))) = some (e ∷ es)

abbrev is_too_old : Option (Option (List BufferedEvent)) → Bool
is_too_old none = false
is_too_old (some none) = true
is_too_old (some (some es)) = false

abbrev pub latest_of : Option EventRingBuffer → ℕ
latest_of none = 0
latest_of (some buffer) = get_latest_event_id buffer

abbrev pub view_of : Option GameState → ℕ → Option View
view_of none agent_id = none
view_of (some state) agent_id = some (sanitize_state_for_player state agent_id)

abbrev positions_if : Option GameState → Outcome (Option (List (ℕ × Position)))
positions_if none = ok none
positions_if (some state) = positions_of state >>= λ positions. ok (some positions)

unfoldable pub welcome_message : Admission → Option EventRingBuffer → Outcome Message
welcome_message a buffer = positions_if a.table.current_state >>= λ positions.
    let delta = delta_of a.payload.last_seen_event_id buffer in
    ok (
      welcome (record {
        table_id = a.table_id;
        seat_index = a.seat.seat_index;
        agent_id = a.payload.agent_id;
        state = view_of a.table.current_state a.payload.agent_id;
        positions = positions;
        delta_events = unless_empty delta;
        full_resync = is_too_old delta;
        latest_event_id = latest_of buffer;
      }))

abbrev pub schedule_auto_start : Text → GameServerWs → GameServerWs
schedule_auto_start id s = record s { auto_start_timers = add_to text_eq id s.auto_start_timers }

-- The server after a message, and the error that nobody catches.
abbrev pub Handled : Type 0
Handled = GameServerWs × Option EngineError

unfoldable pub greet : ℕ → Admission → GameServerWs → Handled
greet ws a s = elim (welcome_message a (get_key text_eq a.table_id s.event_buffers)) [
  | err e ↦ (s, some e)
  | ok msg ↦ (schedule_auto_start a.table_id (send ws msg s), none)
]

unfoldable pub handle_hello : Jwt → ℕ → WsEnvelope → GameServerWs → Handled
handle_hello jwt ws msg s = elim (admit jwt msg s) [
  | err code ↦ (send_error ws code s, none)
  | ok a ↦ greet ws a (register ws a s)
]
