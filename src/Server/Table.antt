-- ===== src/Server/Table.antt =====
-- apps/game-server/src/table-actor.ts: a table, its seats and the hand that is played at it. A method
-- that throws keeps what it wrote before, so each returns the table with its result. What is told
-- through the callbacks is collected in `sent`, in order; the callbacks do not call the table again.
-- Agents and seat tokens are only compared, so they are numbers, and a hand's id is the number that
-- stands in it. The times of creation and completion are left out.
pub mod Hand
pub mod Seating
pub mod Cases
pub mod Stacks
pub mod Chips
pub mod Requests
pub mod Stuck
pub mod Records
pub mod Sound
pub mod Served
use agent_poker.Base.{
  ℕ, zero, suc, ◌+◌, ◌-◌, ◌*◌, ◌/◌, ◌%◌, List, [], ◌∷◌, ◌++◌, map, filter_by, find_by, update_by,
  length, includes, sum_by, any, Option, none, some, Bool, true, false, not, ◌&&◌, ◌==◌, ltb, leb,
  if◌then◌else◌, Result, ok, err,
}
use agent_poker.Poker.Types.{
  Card, GameState, GameEvent, GameConfig, PlayerSetup, PlayerState, PlayerAction, ActionType, check,
  fold, EngineError, default_config, default_nl_config, default_pl_config,
}
use agent_poker.Poker.Deck.{seeded_rng, rng_range}
use agent_poker.Poker.Positions.{advance_dealer}
use agent_poker.Poker.Engine.State.{get_player_by_seat, pot_sum, at_seat}
use agent_poker.Poker.Engine.Legal.{get_legal_actions}
use agent_poker.Poker.Engine.Create.{create_initial_state}
use agent_poker.Poker.Engine.Apply.{apply_action, is_legal}
use agent_poker.History.HashChain.{Text, text_eq}

pub data SeatStatus : Type 0 where
  seated left : SeatStatus

pub record SeatInfo : Type 0 where
  pub seat_index : ℕ
  pub agent_id : ℕ
  pub seat_token : ℕ
  pub buy_in_amount : ℕ
  pub chips : ℕ
  pub status : SeatStatus

pub data TableStatus : Type 0 where
  opened running closed : TableStatus

pub data Output : Type 0 where
  on_event : GameEvent → Output
  on_state_update : GameState → Output
  on_hand_complete : ℕ → List GameEvent → GameState → Output

pub record HandPlayer : Type 0 where
  pub id : ℕ
  pub chips : ℕ
  pub hole_cards : List Card

pub record HandRecord : Type 0 where
  pub hand_id : ℕ
  pub events : List GameEvent
  pub players : List HandPlayer
  pub community_cards : List Card
  pub winners : List ℕ
  pub pot_total : ℕ

-- `none` is -1 for the dealer. Of the cache of requests only the keys are read.
pub record TableActor : Type 0 where
  pub table_id : Text
  pub max_seats : ℕ
  pub config : GameConfig
  pub seats : List SeatInfo
  pub current_state : Option GameState
  pub hand_events : List GameEvent
  pub hands_played : ℕ
  pub dealer_seat_index : Option ℕ
  pub status : TableStatus
  pub timer_running : Bool
  pub request_ids : List Text
  pub seq_per_seat : List (ℕ × ℕ)
  pub rng_counter : ℕ
  pub hand_history : List HandRecord
  pub sent : List Output

pub data TableError : Type 0 where
  table_full already_seated cannot_start no_active_hand replay_detected : TableError
  engine : EngineError → TableError

-- A method's effect and its result.
abbrev pub Method : Type 0 → Type 0
Method A = TableActor × Result TableError A

pub data Variant : Type 0 where
  limit_variant nl_variant pl_variant : Variant

abbrev config_of : Variant → GameConfig
config_of limit_variant = default_config
config_of nl_variant = default_nl_config
config_of pl_variant = default_pl_config

abbrev or_default {ℓ} : {A : Type ℓ} → Option A → A → A
or_default none d = d
or_default (some a) d = a

-- The constructor, with the options that may be left out.
abbrev pub new_table : Text → Option ℕ → Option Variant → Option GameConfig → TableActor
new_table id seats variant config = record {
  table_id = id;
  max_seats = or_default seats 6;
  config = or_default config (config_of (or_default variant limit_variant));
  seats = [];
  current_state = none;
  hand_events = [];
  hands_played = 0;
  dealer_seat_index = none;
  status = opened;
  timer_running = false;
  request_ids = [];
  seq_per_seat = [];
  rng_counter = 0;
  hand_history = [];
  sent = [];
}

abbrev pub is_seated : SeatStatus → Bool
is_seated seated = true
is_seated left = false

abbrev pub sits : SeatInfo → Bool
sits s = is_seated s.status

abbrev pub of_agent : ℕ → SeatInfo → Bool
of_agent id s = s.agent_id == id

abbrev pub sits_as : ℕ → SeatInfo → Bool
sits_as id s = of_agent id s && sits s

abbrev pub taken_seats : List SeatInfo → List ℕ
taken_seats seats = map (λ (s : SeatInfo). s.seat_index) (filter_by sits seats)

-- `while (taken.has(seatIndex)) seatIndex++`
unfoldable pub free_from : ℕ → List ℕ → ℕ → ℕ
free_from zero taken i = i
free_from (suc fuel) taken i =
    let later : ℕ = free_from fuel taken (i + 1) in if includes i taken then later else i

unfoldable pub first_free : List ℕ → ℕ
unfolding free_from
first_free taken = free_from (length taken) taken 0

abbrev pub new_seat : ℕ → ℕ → ℕ → TableActor → SeatInfo
new_seat agent_id seat_token buy_in a = record {
  seat_index = first_free (taken_seats a.seats);
  agent_id = agent_id;
  seat_token = seat_token;
  buy_in_amount = buy_in;
  chips = buy_in;
  status = seated;
}

unfoldable pub add_seat : ℕ → ℕ → ℕ → TableActor → Method SeatInfo
unfolding first_free
add_seat agent_id seat_token buy_in a =
    if leb a.max_seats (length (filter_by sits a.seats))
    then (a, err table_full)
    else if any (sits_as agent_id) a.seats
    then (a, err already_seated)
    else (
      record a { seats = a.seats ++ new_seat agent_id seat_token buy_in a ∷ [] },
      ok (new_seat agent_id seat_token buy_in a),
    )

abbrev pub leave : SeatInfo → SeatInfo
leave s = record s { status = left }

unfoldable pub remove_seat : ℕ → TableActor → TableActor
remove_seat agent_id a = record a { seats = update_by (sits_as agent_id) leave a.seats }

abbrev pub plays : SeatInfo → Bool
plays s = sits s && ltb 0 s.chips

abbrev pub active_seats : TableActor → List SeatInfo
active_seats a = filter_by plays a.seats

abbrev pub can_start_hand : TableActor → Bool
can_start_hand a = leb 2 (length (active_seats a))

abbrev pub setup_of : SeatInfo → PlayerSetup
setup_of s = record { id = s.agent_id; seat_index = s.seat_index; chips = s.chips }

abbrev first_seat : List SeatInfo → ℕ
first_seat [] = 0
first_seat (s ∷ seats) = s.seat_index

-- The dealer of the next hand.
abbrev pub dealer_of : TableActor → ℕ
dealer_of a = or_default a.dealer_seat_index (first_seat (active_seats a))
