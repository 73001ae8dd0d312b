-- ===== src/Tests/Servers.antt =====
-- Runs of a server.
use agent_poker.Base.{
  ℕ, ◌+◌, ◌*◌, ◌++◌, ◌≡◌, ◌≤◌, ◌⊎◌, refl, List, [], ◌∷◌, none, some, All, arith, length, map, ◌==◌,
  if◌then◌else◌,
}
use agent_poker.Poker.Types.{GameState, PlayerState, fold, ace, spades, king, hearts}
use agent_poker.History.HashChain.{Text}
use agent_poker.Server.Table.{seated, add_seat, first_free}
use agent_poker.Server.RingBuffer.{new_buffer}
use agent_poker.Server.SeatToken.{Jwt, verify_seat_token}
use agent_poker.Server.RateLimiter.{allowed}
use agent_poker.Server.Ws.{
  GameServerWs, ConnectedClient, ErrorCode, error_message, table_terminated, new_server, get_table,
  get_agent_tables, send, send_error, register_table,
}
use agent_poker.Server.Ws.Hello.{
  WsEnvelope, MessageType, hello, action, Admission, admit, register, greet, handle_hello,
  welcome_message, connections_of,
}
use agent_poker.Server.Ws.Views.{broadcast_state}
use agent_poker.Server.Ws.Play.{handle_action}
use agent_poker.Server.Ws.Server.{
  dispatch, handle_message, handle_parsed, receive, handle_connection, handle_close, drop_client,
  Event, registers, joins, connects, receives, closes, envelope, run, step,
}
use agent_poker.Server.Ws.Limits.{live}
use agent_poker.Server.Ws.Bounded.{run-limits}
use agent_poker.Server.Ws.Admits.{IsAdmitted, handle_hello-admits}
use agent_poker.Server.Ws.Frames.{registry}
use agent_poker.Server.Ws.Private.{
  LooksAlike, heard, to_socket, broadcast_state-private, welcome_message-private, with_hand,
}
use agent_poker.Server.Ws.Isolated.{others, handle_action-isolated, handle_action-terminates}
use agent_poker.Server.Ws.Kept.{IsSound, run-SeatsSound}
use agent_poker.Server.Ws.Repeated.{handle_hello-again}
use agent_poker.Tests.Tables.{empty_table, two_seats}
use agent_poker.Tests.Runs.{on_flop}

-- A web token is the number of its agent, for the table t.
abbrev table_t : Text
table_t = b't' ∷ []

abbrev jwt : Jwt
jwt = record {
  verify = λ token. some (record { agent_id = some 10; table_id = some table_t });
  sign = λ payload seconds. 7;
}

abbrev message : MessageType → WsEnvelope
message type = record {
  protocol_version = 1;
  type = type;
  request_id = none;
  table_id = some table_t;
  seq = none;
  hello_payload = some (record { agent_id = 10; seat_token = 7; last_seen_event_id = none });
  action_payload = some (record { action = fold; amount = none });
}

-- Two agents join a table, and agent 10 connects twice.
abbrev events : List Event
events =
    registers empty_table
    ∷ joins table_t 10 7 100
    ∷ joins table_t 11 7 50
    ∷ connects 0 1
    ∷ receives 0 allowed jwt 1 100 (envelope (message hello))
    ∷ connects 0 2
    ∷ receives 0 allowed jwt 2 100 (envelope (message hello))
    ∷ []

run-limits_example :
    (live 10 (run events new_server).clients ≤ 10)
    × (length (get_agent_tables 10 (run events new_server)) ≤ 8)
run-limits_example = run-limits 10 events

-- Agent 10 at the table, on socket 1; socket 2 is open.
abbrev connected : ConnectedClient
connected = record {
  ws = 1;
  agent_id = 10;
  table_id = table_t;
  seat_token = 7;
  last_seen_event_id = none;
}

abbrev server : GameServerWs
server = record new_server {
  tables = two_seats ∷ [];
  clients = connected ∷ [];
  agent_connection_count = (10, 1) ∷ [];
  agent_to_tables = (10, table_t ∷ []) ∷ [];
  agent_to_ws = (10, 1) ∷ [];
  event_buffers = (table_t, new_buffer 1000) ∷ [];
  open_sockets = 2 ∷ 1 ∷ [];
}

handle_hello-admits_example :
    ((code : ErrorCode) × (handle_hello jwt 2 (message hello) server
        ≡ (send_error 2 code server, none)))
    ⊎ ((a : Admission) × IsAdmitted jwt (message hello) server a
        × (registry (handle_hello jwt 2 (message hello) server).0 ≡ registry (register 2 a server)))
handle_hello-admits_example = handle_hello-admits jwt 2 (message hello) server

abbrev admission : Admission
admission = record {
  payload = record { agent_id = 10; seat_token = 7; last_seen_event_id = none };
  table_id = table_t;
  table = two_seats;
  seat = record {
    seat_index = 0;
    agent_id = 10;
    seat_token = 7;
    buy_in_amount = 100;
    chips = 100;
    status = seated;
  };
}

handle_hello-again_example :
    (live 10 (handle_hello jwt 1 (message hello) server).0.clients ≡ 1)
    × (connections_of 10 (handle_hello jwt 1 (message hello) server).0 ≡ 2)
unfolding admit verify_seat_token
handle_hello-again_example =
    handle_hello-again jwt 1 (message hello) server admission connected refl refl refl

-- The hand of the flop with other cards in the deck and with agent 12.
abbrev other_cards : GameState
other_cards = record on_flop {
  deck = record { rank = ace; suit = spades } ∷ [];
  players =
      map
        (λ (p : PlayerState).
          if p.id == 12
          then record p { hole_cards = record { rank = king; suit = hearts } ∷ [] }
          else p)
        on_flop.players;
}

alike : LooksAlike 10 on_flop other_cards
alike = (
  refl,
  ((refl, λ _. refl), ((refl, λ _. refl), ((refl, λ (e : 12 ≡ 10). absurd (omega arith)), tt))),
)

broadcast_state-private_example :
    heard 1 (broadcast_state table_t on_flop server)
    ≡ heard 1 (broadcast_state table_t other_cards server)
broadcast_state-private_example =
    broadcast_state-private 10 1 table_t on_flop other_cards server alike refl (λ _. refl, tt)

welcome_message-private_example :
    welcome_message (with_hand on_flop admission) none
    ≡ welcome_message (with_hand other_cards admission) none
welcome_message-private_example =
    welcome_message-private admission none on_flop other_cards alike refl

handle_action-isolated_example :
    (others table_t (handle_action allowed 1 (message action) server).tables ≡ [])
    × (to_socket 2 (handle_action allowed 1 (message action) server).sent ≡ [])
handle_action-isolated_example =
    handle_action-isolated allowed 1 2 (message action) server connected refl refl
      (λ (e : 1 ≡ 2). absurd (omega arith), tt)

handle_action-terminates_example :
    (get_table table_t (handle_action allowed 1 (message action) server) ≡ none)
    × ((handle_action allowed 1 (message action) server).sent
        ≡ (1, error_message table_terminated none) ∷ [])
handle_action-terminates_example =
    handle_action-terminates allowed 1 (message action) server connected two_seats
      (record { action = fold; amount = none }) refl refl refl refl refl

empty_table-IsSound : IsSound empty_table
empty_table-IsSound = record { agents = tt; indices = tt; inside = tt; room = omega arith }

run-SeatsSound_example : All IsSound (run events new_server).tables
run-SeatsSound_example =
    run-SeatsSound events (empty_table-IsSound, (tt, (tt, (tt, (tt, (tt, (tt, tt)))))))

-- Both connections of the agent are counted, and one that leaves takes the table with it.
twice_connected :
    (live 10 (run events new_server).clients ≡ 2)
    × (get_agent_tables 10 (run events new_server) ≡ table_t ∷ [])
    × (live 10 (step (closes 2) (run events new_server)).clients ≡ 1)
    × (get_agent_tables 10 (step (closes 2) (run events new_server)) ≡ [])
unfolding run step register_table add_seat first_free handle_connection receive handle_parsed
    handle_message dispatch handle_hello admit verify_seat_token register greet welcome_message send
    handle_close drop_client
twice_connected = (refl, refl, refl, refl)

-- A web token of agent 10 is the number of its table.
abbrev jwt_of_tables : Jwt
jwt_of_tables = record {
  verify = λ token. some (record { agent_id = some 10; table_id = some (token ∷ []) });
  sign = λ payload seconds. payload.agent_id;
}

abbrev hello_to : ℕ → WsEnvelope
hello_to k = record (message hello) {
  table_id = some (k ∷ []);
  hello_payload = some (record { agent_id = 10; seat_token = k; last_seen_event_id = none });
}

-- Agent 10 connects twice to a table, and closes one of the two connections.
abbrev twice_at : ℕ → List Event
twice_at k =
    registers (record empty_table { table_id = k ∷ [] })
    ∷ joins (k ∷ []) 10 k 100
    ∷ connects 0 (2 * k)
    ∷ receives 0 allowed jwt_of_tables (2 * k) 100 (envelope (hello_to k))
    ∷ connects 0 (2 * k + 1)
    ∷ receives 0 allowed jwt_of_tables (2 * k + 1) 100 (envelope (hello_to k))
    ∷ closes (2 * k + 1)
    ∷ []

abbrev nine_times : List Event
nine_times =
    twice_at 1
    ++ twice_at 2
    ++ twice_at 3
    ++ twice_at 4
    ++ twice_at 5
    ++ twice_at 6
    ++ twice_at 7
    ++ twice_at 8
    ++ twice_at 9

-- An agent is at nine tables, and its list of tables is empty.
nine_tables :
    (map (λ (c : ConnectedClient). c.table_id) (run nine_times new_server).clients
      ≡ map (λ k. k ∷ []) (1 ∷ 2 ∷ 3 ∷ 4 ∷ 5 ∷ 6 ∷ 7 ∷ 8 ∷ 9 ∷ []))
    × (live 10 (run nine_times new_server).clients ≡ 9)
    × (get_agent_tables 10 (run nine_times new_server) ≡ [])
unfolding run step register_table add_seat first_free handle_connection receive handle_parsed
    handle_message dispatch handle_hello admit verify_seat_token register greet welcome_message send
    handle_close drop_client
nine_tables = (refl, refl, refl)
