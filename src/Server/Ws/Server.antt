-- ===== src/Server/Ws/Server.antt =====
-- apps/game-server/src/ws-handler.ts: the messages and the other events of a server. What is read
-- from outside is part of the event: the time, what the rate limiter answers (any answer is
-- considered), the web tokens, and what JSON and the schemas make of a
-- message.
use agent_poker.Base.{
  ℕ, ◌+◌, ◌-◌, ◌*◌, List, [], ◌∷◌, map, any, filter_by, includes, Option, none, some, Bool, true,
  false, not, ◌==◌, ltb, leb, if◌then◌else◌, get_key, set_key, delete_key,
}
use agent_poker.History.HashChain.{Text, text_eq}
use agent_poker.Server.RateLimiter.{RateCheck}
use agent_poker.Server.SeatToken.{Jwt}
use agent_poker.Server.Table.{TableActor, add_seat, remove_seat}
use agent_poker.Server.Table.Hand.{close, handle_timeout}
use agent_poker.Server.Ws.{
  GameServerWs, ConnectedClient, Bandwidth, internal, invalid_message, protocol_mismatch,
  unknown_message_type, rate_limited, Message, pong, shutdown, get_table, get_client, is_client,
  register_table, send, send_error,
}
use agent_poker.Server.Ws.Hello.{
  MessageType, hello, action, ping, refresh_token, other, WsEnvelope, Handled, handle_hello,
}
use agent_poker.Server.Ws.Play.{handle_action, handle_refresh_token, try_start_hand, store_table}

unfoldable pub dispatch : MessageType → RateCheck → Jwt → ℕ → WsEnvelope → GameServerWs → Handled
dispatch hello check jwt ws msg s = handle_hello jwt ws msg s
dispatch action check jwt ws msg s = (handle_action check ws msg s, none)
dispatch ping check jwt ws msg s = (send ws pong s, none)
dispatch refresh_token check jwt ws msg s = (handle_refresh_token jwt ws s, none)
dispatch other check jwt ws msg s = (send_error ws unknown_message_type s, none)

abbrev pub protocol_version : ℕ
protocol_version = 1

unfoldable pub handle_message : RateCheck → Jwt → ℕ → WsEnvelope → GameServerWs → Handled
handle_message check jwt ws msg s =
    if not (msg.protocol_version == protocol_version)
    then (send_error ws protocol_mismatch s, none)
    else dispatch msg.type check jwt ws msg s

-- What `JSON.parse` and the schema of envelopes make of the bytes.
pub data Parsed : Type 0 where
  not_json not_envelope : Parsed
  envelope : WsEnvelope → Parsed

abbrev pub max_message_size : ℕ
max_message_size = 16 * 1024

abbrev pub bytes_per_second_limit : ℕ
bytes_per_second_limit = 256 * 1024

abbrev pub bandwidth_or_new : ℕ → Option Bandwidth → Bandwidth
bandwidth_or_new now none = record { bytes_this_second = 0; last_reset_time = now }
bandwidth_or_new now (some b) = b

-- A clock that has gone back starts no new second.
abbrev pub count_bytes : ℕ → ℕ → Bandwidth → Bandwidth
count_bytes now bytes b =
    if leb (b.last_reset_time + 1000) now
    then record { bytes_this_second = bytes; last_reset_time = now }
    else record b { bytes_this_second = b.bytes_this_second + bytes }

unfoldable pub handle_parsed : RateCheck → Jwt → ℕ → Parsed → GameServerWs → Handled
handle_parsed check jwt ws not_json s = (send_error ws internal s, none)
handle_parsed check jwt ws not_envelope s = (send_error ws invalid_message s, none)
handle_parsed check jwt ws (envelope msg) s = handle_message check jwt ws msg s

-- `ws.on('message', …)`
unfoldable pub receive : ℕ → RateCheck → Jwt → ℕ → ℕ → Parsed → GameServerWs → Handled
receive now check jwt ws bytes parsed s =
    let b = count_bytes now bytes (bandwidth_or_new now (get_key ◌==◌ ws s.bandwidths)) in
    let noted = record s { bandwidths = set_key ◌==◌ ws b s.bandwidths } in
    if ltb bytes_per_second_limit b.bytes_this_second
    then (send_error ws rate_limited noted, none)
    else if ltb max_message_size bytes
    then (send_error ws invalid_message noted, none)
    else handle_parsed check jwt ws parsed noted

-- `handleConnection`, for a server that still accepts.
unfoldable pub handle_connection : ℕ → ℕ → GameServerWs → GameServerWs
handle_connection now ws s =
    if s.accepting
    then record s {
      open_sockets = ws ∷ s.open_sockets;
      pong_received = ws ∷ s.pong_received;
      bandwidths =
          set_key ◌==◌ ws (record { bytes_this_second = 0; last_reset_time = now }) s.bandwidths;
    }
    else s

abbrev pub without_socket : ℕ → List ℕ → List ℕ
without_socket ws xs = filter_by (λ x. not (x == ws)) xs

-- The agent's connections, one less.
abbrev pub count_down : ℕ → List (ℕ × ℕ) → List (ℕ × ℕ)
count_down agent_id counts = elim (get_key ◌==◌ agent_id counts) [
  | none ↦ delete_key ◌==◌ agent_id counts
  | some n ↦
      if leb n 1 then delete_key ◌==◌ agent_id counts else set_key ◌==◌ agent_id (n - 1) counts
]

abbrev pub is_no_table : List Text → Bool
is_no_table [] = true
is_no_table (id ∷ ids) = false

-- The agent's tables without_socket one.
abbrev pub leave_table : ConnectedClient → List Text → GameServerWs → GameServerWs
leave_table c ids s =
    let left = filter_by (λ id. not (text_eq id c.table_id)) ids in
    if is_no_table left
    then record s {
      agent_to_tables = delete_key ◌==◌ c.agent_id s.agent_to_tables;
      agent_to_ws = delete_key ◌==◌ c.agent_id s.agent_to_ws;
    }
    else record s { agent_to_tables = set_key ◌==◌ c.agent_id left s.agent_to_tables }

abbrev pub leave_if : ConnectedClient → Option (List Text) → GameServerWs → GameServerWs
leave_if c none s = s
leave_if c (some ids) s = leave_table c ids s

unfoldable pub drop_client : ConnectedClient → GameServerWs → GameServerWs
drop_client c s =
    let counted_down = record s {
      agent_connection_count = count_down c.agent_id s.agent_connection_count;
    } in
    let left = leave_if c (get_key ◌==◌ c.agent_id s.agent_to_tables) counted_down in
    record left { clients = filter_by (λ d. not (is_client c.ws d)) left.clients }

abbrev pub drop_if : Option ConnectedClient → GameServerWs → GameServerWs
drop_if none s = s
drop_if (some c) s = drop_client c s

-- `ws.on('close', …)`
unfoldable pub handle_close : ℕ → GameServerWs → GameServerWs
handle_close ws s =
    drop_if (get_client ws s) (record s { open_sockets = without_socket ws s.open_sockets })

-- A socket that has not answered since the last tick is terminated; the others are asked again.
unfoldable pub beat : List ConnectedClient → GameServerWs → GameServerWs
beat [] s = s
beat (c ∷ cs) s = beat cs (
    if includes c.ws s.pong_received
    then record s { pong_received = without_socket c.ws s.pong_received }
    else record s { open_sockets = without_socket c.ws s.open_sockets })

abbrev pub close_all : GameServerWs → GameServerWs
close_all s = record s { tables = map close s.tables; accepting = false }

abbrev pub sockets_of : List ConnectedClient → List ℕ
sockets_of cs = map (λ (c : ConnectedClient). c.ws) cs

unfoldable pub send_all : List ConnectedClient → Message → GameServerWs → GameServerWs
send_all [] msg s = s
send_all (c ∷ cs) msg s = send_all cs msg (send c.ws msg s)

-- `gracefulStop`, before and after the wait.
unfoldable pub announce_stop : ℕ → GameServerWs → GameServerWs
announce_stop grace_ms s =
    let told : GameServerWs = send_all s.clients (shutdown grace_ms) s in
    record told { accepting = false }

unfoldable pub force_stop : GameServerWs → GameServerWs
force_stop s = close_all (record s {
  open_sockets = filter_by (λ ws. not (includes ws (sockets_of s.clients))) s.open_sockets;
})

-- The lobby keeps the tables that it registers, and calls their methods for seats.
abbrev pub seat_in :
    Text → (TableActor → TableActor) → Option TableActor → GameServerWs → GameServerWs
seat_in id change none s = s
seat_in id change (some t) s = store_table id (change t) s

abbrev pub time_out_at : Text → Text → Option TableActor → GameServerWs → GameServerWs
time_out_at id request none s = s
time_out_at id request (some t) s =
    if t.timer_running then store_table id (handle_timeout request t).0 s else s

-- The first of equal entries goes.
abbrev pub drop_first : Text → List Text → List Text
drop_first id [] = []
drop_first id (x ∷ xs) = if text_eq x id then xs else x ∷ drop_first id xs

pub data Event : Type 0 where
  registers : TableActor → Event
  joins : Text → ℕ → ℕ → ℕ → Event
  leaves : Text → ℕ → Event
  connects : ℕ → ℕ → Event
  receives : ℕ → RateCheck → Jwt → ℕ → ℕ → Parsed → Event
  pongs : ℕ → Event
  closes : ℕ → Event
  beats : Event
  starts_first : Text → Event
  starts_next : Text → Event
  times_out : Text → Text → Event
  stops : Event
  announces_stop : ℕ → Event
  forces_stop : Event

-- A timer that does not run does not fire.
unfoldable pub step : Event → GameServerWs → GameServerWs
step (registers t) s = register_table t s
step (joins id agent_id token buy_in) s =
    seat_in id (λ t. (add_seat agent_id token buy_in t).0) (get_table id s) s
step (leaves id agent_id) s = seat_in id (remove_seat agent_id) (get_table id s) s
step (connects now ws) s = handle_connection now ws s
step (receives now check jwt ws bytes parsed) s = (receive now check jwt ws bytes parsed s).0
step (pongs ws) s = record s { pong_received = ws ∷ s.pong_received }
step (closes ws) s = handle_close ws s
step beats s = beat s.clients s
step (starts_first id) s =
    if any (text_eq id) s.auto_start_timers
    then try_start_hand id (record s { auto_start_timers = drop_first id s.auto_start_timers })
    else s
step (starts_next id) s =
    if any (text_eq id) s.next_hand_timers
    then try_start_hand id (record s { next_hand_timers = drop_first id s.next_hand_timers })
    else s
step (times_out id request) s = time_out_at id request (get_table id s) s
step stops s = close_all s
step (announces_stop grace_ms) s = announce_stop grace_ms s
step forces_stop s = force_stop s

-- The server after events, one after another.
unfoldable pub run : List Event → GameServerWs → GameServerWs
run [] s = s
run (e ∷ es) s = run es (step e s)
