-- ===== src/Server/Ws.antt =====
-- apps/game-server/src/ws-handler.ts, without a database (`db` is null): the connections of the
-- agents, the tables they sit at and the messages they are sent. A socket is a number, and what is
-- sent is collected in `sent`, in order, for the sockets that are open. A handler runs to its end
-- before the next event. The texts of errors are left out, their codes are not.
pub mod Views
pub mod Hello
pub mod Play
pub mod Server
pub mod Frames
pub mod Limits
pub mod Departed
pub mod Bounded
pub mod Admits
pub mod Private
pub mod Isolated
pub mod Tables
pub mod Kept
pub mod Repeated
pub mod Answers
use agent_poker.Base.{
  ℕ, ◌+◌, List, [], ◌∷◌, ◌++◌, map, filter_by, find_by, Option, none, some, Bool, true, false, not,
  includes, ◌==◌, if◌then◌else◌, get_key, set_key, delete_key,
}
use agent_poker.Poker.Types.{
  Card, PlayerState, Pot, Street, GameConfig, GameState, HandResult, PlayerAction, EngineError,
}
use agent_poker.Poker.Positions.{Position}
use agent_poker.History.HashChain.{Text, text_eq}
use agent_poker.Server.RingBuffer.{EventRingBuffer, BufferedEvent, new_buffer}
use agent_poker.Server.Table.{TableActor}
use agent_poker.Server.Table.Hand.{close}

-- What a client sees of a hand: the state without its deck.
pub record View : Type 0 where
  pub hand_id : ℕ
  pub config : GameConfig
  pub street : Street
  pub players : List PlayerState
  pub dealer_seat_index : ℕ
  pub active_player_seat_index : ℕ
  pub community_cards : List Card
  pub pots : List Pot
  pub bets_this_street : ℕ
  pub last_raise_size : ℕ
  pub is_hand_complete : Bool
  pub winners : Option (List ℕ)
  pub result_summary : Option HandResult

-- `poker` is the code of a `PokerError`.
pub data ErrorCode : Type 0 where
  auth_failed invalid_message internal protocol_mismatch unknown_message_type : ErrorCode
  connection_limit table_limit table_terminated rate_limited replay : ErrorCode
  poker : EngineError → ErrorCode

pub record Welcome : Type 0 where
  pub table_id : Text
  pub seat_index : ℕ
  pub agent_id : ℕ
  pub state : Option View
  pub positions : Option (List (ℕ × Position))
  pub delta_events : Option (List BufferedEvent)
  pub full_resync : Bool
  pub latest_event_id : ℕ

-- What the server sends.
pub data Message : Type 0 where
  error_message : ErrorCode → Option Text → Message
  too_many_actions : Option ℕ → Option Text → Message
  welcome : Welcome → Message
  ack : Option Text → Bool → Message
  state_message : View → List (ℕ × Position) → Message
  hand_complete : ℕ → Option (List ℕ) → Option HandResult → Message
  pong : Message
  token_refreshed : ℕ → Message
  shutdown : ℕ → Message

pub record ConnectedClient : Type 0 where
  pub ws : ℕ
  pub agent_id : ℕ
  pub table_id : Text
  pub seat_token : ℕ
  pub last_seen_event_id : Option ℕ

-- A connection's bytes in this second, and when the second began.
pub record Bandwidth : Type 0 where
  pub bytes_this_second : ℕ
  pub last_reset_time : ℕ

-- Tables are kept under their ids and clients under their sockets. A timer that runs is an entry
-- of its list.
pub record GameServerWs : Type 0 where
  pub tables : List TableActor
  pub clients : List ConnectedClient
  pub agent_to_ws : List (ℕ × ℕ)
  pub agent_to_tables : List (ℕ × List Text)
  pub agent_connection_count : List (ℕ × ℕ)
  pub event_buffers : List (Text × EventRingBuffer)
  pub pong_received : List ℕ
  pub bandwidths : List (ℕ × Bandwidth)
  pub auto_start_timers : List Text
  pub next_hand_timers : List Text
  pub open_sockets : List ℕ
  pub accepting : Bool
  pub sent : List (ℕ × Message)

abbrev pub new_server : GameServerWs
new_server = record {
  tables = [];
  clients = [];
  agent_to_ws = [];
  agent_to_tables = [];
  agent_connection_count = [];
  event_buffers = [];
  pong_received = [];
  bandwidths = [];
  auto_start_timers = [];
  next_hand_timers = [];
  open_sockets = [];
  accepting = true;
  sent = [];
}

abbrev pub max_connections_per_agent : ℕ
max_connections_per_agent = 10

abbrev pub max_tables_per_agent : ℕ
max_tables_per_agent = 8

abbrev pub is_table : Text → TableActor → Bool
is_table id t = text_eq t.table_id id

abbrev pub get_table : Text → GameServerWs → Option TableActor
get_table id s = find_by (is_table id) s.tables

-- `this.tables.set(table.tableId, table)`
abbrev pub put_table : TableActor → List TableActor → List TableActor
put_table table [] = table ∷ []
put_table table (t ∷ ts) =
    if text_eq t.table_id table.table_id then table ∷ ts else t ∷ put_table table ts

abbrev pub is_client : ℕ → ConnectedClient → Bool
is_client ws c = c.ws == ws

abbrev pub get_client : ℕ → GameServerWs → Option ConnectedClient
get_client ws s = find_by (is_client ws) s.clients

-- `this.clients.set(ws, client)`
abbrev pub put_client : ConnectedClient → List ConnectedClient → List ConnectedClient
put_client client [] = client ∷ []
put_client client (c ∷ cs) = if c.ws == client.ws then client ∷ cs else c ∷ put_client client cs

unfoldable pub send : ℕ → Message → GameServerWs → GameServerWs
send ws msg s =
    if includes ws s.open_sockets then record s { sent = s.sent ++ (ws, msg) ∷ [] } else s

abbrev pub send_error : ℕ → ErrorCode → GameServerWs → GameServerWs
send_error ws code s = send ws (error_message code none) s

abbrev pub at_table : Text → ConnectedClient → Bool
at_table id c = text_eq c.table_id id

-- `for (const [ws, client] of this.clients) if (client.tableId === tableId) …`
unfoldable pub send_each :
    Text → (ConnectedClient → Message) → List ConnectedClient → GameServerWs → GameServerWs
send_each id msg [] s = s
send_each id msg (c ∷ cs) s = send_each id msg cs (if at_table id c then send c.ws (msg c) s else s)

unfoldable pub broadcast_to_table : Text → Message → GameServerWs → GameServerWs
broadcast_to_table id msg s = send_each id (λ _. msg) s.clients s

unfoldable pub register_table : TableActor → GameServerWs → GameServerWs
register_table table s = record s {
  tables = put_table table s.tables;
  event_buffers = elim (get_key text_eq table.table_id s.event_buffers) [
    | none ↦ set_key text_eq table.table_id (new_buffer 1000) s.event_buffers
    | some b ↦ s.event_buffers
  ];
}

-- Closing a table that is deleted at once shows in its timer only.
unfoldable pub terminate_table : Text → GameServerWs → GameServerWs
terminate_table id s =
    let told : GameServerWs = send_each id (λ _. error_message table_terminated none) s.clients s in
    record told {
      tables = filter_by (λ t. not (is_table id t)) told.tables;
      event_buffers = delete_key text_eq id told.event_buffers;
    }

abbrev send_if_any : Option ℕ → Message → GameServerWs → GameServerWs
send_if_any none msg s = s
send_if_any (some ws) msg s = send ws msg s

unfoldable pub send_to_agent : ℕ → Message → GameServerWs → GameServerWs
send_to_agent agent_id msg s = send_if_any (get_key ◌==◌ agent_id s.agent_to_ws) msg s

-- `getAgentTables`
abbrev pub tables_or_none : Option (List Text) → List Text
tables_or_none none = []
tables_or_none (some ids) = ids

abbrev pub get_agent_tables : ℕ → GameServerWs → List Text
get_agent_tables agent_id s = tables_or_none (get_key ◌==◌ agent_id s.agent_to_tables)
