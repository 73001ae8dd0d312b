-- ===== src/Server/Table/Hand.antt =====
-- apps/game-server/src/table-actor.ts: the hands of a table.
use agent_poker.Base.{
  get_or, sort, ℕ, zero, suc, ◌+◌, ◌-◌, ◌*◌, ◌/◌, ◌%◌, List, [], ◌∷◌, ◌++◌, map, find_by, update_by,
  length, any, Option, none, some, Bool, true, false, not, ◌==◌, ltb, leb, if◌then◌else◌, ok, err,
}
use agent_poker.Poker.Types.{
  GameState, GameEvent, PlayerState, PlayerAction, ActionType, check, fold,
}
use agent_poker.Poker.Deck.{seeded_rng, rng_range}
use agent_poker.Poker.Positions.{advance_dealer}
use agent_poker.Poker.Engine.State.{pot_sum, at_seat}
use agent_poker.Poker.Engine.Legal.{get_legal_actions}
use agent_poker.Poker.Engine.Create.{create_initial_state}
use agent_poker.Poker.Engine.Apply.{apply_action, is_legal}
use agent_poker.History.HashChain.{Text, text_eq}
use agent_poker.Server.Table.{
  TableActor, SeatInfo, Output, on_event, on_state_update, on_hand_complete, HandRecord, HandPlayer,
  Method, running, closed, cannot_start, no_active_hand, replay_detected, engine, can_start_hand,
  active_seats, setup_of, dealer_of, of_agent,
}

-- The digits of a number, the last first at work: n + 1 steps are enough.
abbrev pub digits_from : ℕ → ℕ → Text → Text
digits_from zero n digits = digits
digits_from (suc fuel) n digits = elim (ltb n 10) [
  | true ↦ (b'0' + n % 10) ∷ digits
  | false ↦ digits_from fuel (n / 10) ((b'0' + n % 10) ∷ digits)
]

abbrev pub decimal : ℕ → Text
decimal n = digits_from (n + 1) n []

-- `hashSeed`: a word of 32 bits, read without its sign.
abbrev pub hash_from : ℕ → Text → ℕ
hash_from h [] = h
hash_from h (c ∷ cs) = hash_from ((h * 32 + (rng_range - h) + c) % rng_range) cs

unfoldable pub hash_seed : Text → ℕ
hash_seed input = hash_from 0 input

abbrev pub seed_text : TableActor → Text
seed_text a =
    a.table_id ++ (b':' ∷ (decimal a.hands_played ++ (b':' ∷ decimal (a.rng_counter + 1))))

abbrev pub seed_of : TableActor → ℕ
unfolding hash_seed
seed_of a = hash_seed (seed_text a)

abbrev pub tell : List GameEvent → GameState → List Output
tell events s = map on_event events ++ on_state_update s ∷ []

-- The state and the events of a hand that has been dealt.
abbrev pub dealt : GameState × List GameEvent → TableActor → TableActor
dealt r a = record a {
  current_state = some r.0;
  hand_events = r.1;
  status = running;
  request_ids = [];
  timer_running = true;
  sent = a.sent ++ tell r.1 r.0;
}

-- The dealer and the counter are written before the engine is called.
abbrev pub prepared : TableActor → TableActor
prepared a = record a { dealer_seat_index = some (dealer_of a); rng_counter = a.rng_counter + 1 }

unfoldable pub start_hand : TableActor → Method (GameState × List GameEvent)
unfolding create_initial_state
start_hand a =
    if not (can_start_hand a)
    then (a, err cannot_start)
    else elim (create_initial_state seeded_rng (a.hands_played + 1) (map setup_of (active_seats a))
        (dealer_of a) (seed_of a) a.config) [
          | err e ↦ (prepared a, err (engine e))
          | ok r ↦ (dealt r (prepared a), ok r)
        ]

-- `seat.chips = player.chips`, at the first seat of that agent.
abbrev pub store_chips : List PlayerState → List SeatInfo → List SeatInfo
store_chips [] seats = seats
store_chips (p ∷ ps) seats =
    store_chips ps (update_by (of_agent p.id) (λ s. record s { chips = p.chips }) seats)

abbrev pub seat_indices : List SeatInfo → List ℕ
seat_indices seats = map (λ (s : SeatInfo). s.seat_index) seats

-- -1 is no seat, so the first seat follows it.
abbrev pub next_dealer : List ℕ → Option ℕ → Option ℕ
unfolding advance_dealer
next_dealer active none = some (get_or (sort active) 0 0)
next_dealer active (some dealer) = some (advance_dealer active dealer)

abbrev pub winners_of : Option (List ℕ) → List ℕ
winners_of none = []
winners_of (some ids) = ids

abbrev pub hand_player : PlayerState → HandPlayer
hand_player p = record { id = p.id; chips = p.chips; hole_cards = p.hole_cards }

abbrev pub hand_record : GameState → List GameEvent → HandRecord
hand_record s events = record {
  hand_id = s.hand_id;
  events = events;
  players = map hand_player s.players;
  community_cards = s.community_cards;
  winners = winners_of s.winners;
  pot_total = pot_sum s;
}

unfoldable pub complete_hand : GameState → TableActor → TableActor
complete_hand s a =
    let stored : TableActor = record a { seats = store_chips s.players a.seats } in
    let active : List ℕ = seat_indices (active_seats stored) in
    record stored {
      hands_played = a.hands_played + 1;
      dealer_seat_index =
          if leb 2 (length active)
          then next_dealer active a.dealer_seat_index
          else a.dealer_seat_index;
      hand_history = a.hand_history ++ hand_record s a.hand_events ∷ [];
      sent = a.sent ++ on_hand_complete s.hand_id a.hand_events s ∷ [];
      current_state = none;
      hand_events = [];
    }

pub record Processed : Type 0 where
  pub state : GameState
  pub events : List GameEvent
  pub already_processed : Bool

-- An empty text is as good as none.
abbrev pub is_cached : Option Text → List Text → Bool
is_cached none ids = false
is_cached (some []) ids = false
is_cached (some (c ∷ cs)) ids = any (text_eq (c ∷ cs)) ids

abbrev pub cache : Option Text → List Text → List Text
cache none ids = ids
cache (some []) ids = ids
cache (some (c ∷ cs)) ids = (c ∷ cs) ∷ ids

abbrev pub last_seq : ℕ → List (ℕ × ℕ) → Option ℕ
last_seq id [] = none
last_seq id ((key, n) ∷ seqs) = if key == id then some n else last_seq id seqs

abbrev pub set_seq : ℕ → ℕ → List (ℕ × ℕ) → List (ℕ × ℕ)
set_seq id n [] = (id, n) ∷ []
set_seq id n ((key, old) ∷ seqs) =
    if key == id then (key, n) ∷ seqs else (key, old) ∷ set_seq id n seqs

-- `seq <= lastSeq`
abbrev pub not_after : ℕ → Option ℕ → Bool
not_after n none = false
not_after n (some last) = leb n last

abbrev pub is_replay : ℕ → Option ℕ → TableActor → Bool
is_replay id none a = false
is_replay id (some n) a = not_after n (last_seq id a.seq_per_seat)

abbrev pub note_seq : ℕ → Option ℕ → TableActor → TableActor
note_seq id none a = a
note_seq id (some n) a = record a { seq_per_seat = set_seq id n a.seq_per_seat }

-- The table after an accepted action, up to the end of the hand.
abbrev pub acted : Option Text → GameState × List GameEvent → TableActor → TableActor
acted request r a = record a {
  current_state = some r.0;
  hand_events = a.hand_events ++ r.1;
  request_ids = cache request a.request_ids;
  sent = a.sent ++ tell r.1 r.0;
}

unfoldable pub after_action : Option Text → GameState × List GameEvent → TableActor → TableActor
unfolding complete_hand
after_action request r a =
    if r.0.is_hand_complete
    then complete_hand r.0 (record (acted request r a) { timer_running = false })
    else record (acted request r a) { timer_running = true }

-- The call of the engine, with the table as it is after the checks.
unfoldable pub run_action :
    ℕ → PlayerAction → Option Text → GameState → TableActor → Method Processed
unfolding apply_action after_action
run_action id action request s a = elim (apply_action s id action) [
  | err e ↦ (a, err (engine e))
  | ok r ↦ (
    after_action request r a,
    ok (record { state = r.0; events = r.1; already_processed = false }),
  )
]

unfoldable pub process_in :
    GameState → ℕ → PlayerAction → Option Text → Option ℕ → TableActor → Method Processed
unfolding run_action
process_in s id action request seq a =
    if is_cached request a.request_ids
    then (a, ok (record { state = s; events = []; already_processed = true }))
    else if is_replay id seq a
    then (a, err replay_detected)
    else run_action id action request s (note_seq id seq a)

unfoldable pub process_with :
    Option GameState → ℕ → PlayerAction → Option Text → Option ℕ → TableActor → Method Processed
unfolding process_in
process_with none id action request seq a = (a, err no_active_hand)
process_with (some s) id action request seq a = process_in s id action request seq a

unfoldable pub process_action :
    ℕ → PlayerAction → Option Text → Option ℕ → TableActor → Method Processed
unfolding process_with
process_action id action request seq a = process_with a.current_state id action request seq a

abbrev pub timeout_action : List ActionType → PlayerAction
timeout_action legal =
    if is_legal check legal
    then record { type = check; amount = none }
    else record { type = fold; amount = none }

-- The timeout of a hand that goes on; `request` is the text with the time.
unfoldable pub time_out : GameState → Text → TableActor → Method (Option Processed)
unfolding get_legal_actions process_action
time_out s request a = elim (find_by (at_seat s.active_player_seat_index) s.players) [
  | none ↦ (a, ok none)
  | some player ↦ elim (get_legal_actions s) [
    | err e ↦ (a, err (engine e))
    | ok legal ↦
        let done = process_action player.id (timeout_action legal) (some request) none a in
        (done.0, elim (done.1) [ ok p ↦ ok (some p) | err e ↦ err e ])
  ]
]

unfoldable pub time_out_with : Option GameState → Text → TableActor → Method (Option Processed)
unfolding time_out
time_out_with none request a = (a, ok none)
time_out_with (some s) request a = if s.is_hand_complete then (a, ok none) else time_out s request a

unfoldable pub handle_timeout : Text → TableActor → Method (Option Processed)
unfolding time_out_with
handle_timeout request a = time_out_with a.current_state request a

abbrev pub close : TableActor → TableActor
close a = record a { timer_running = false; status = closed }

unfoldable pub get_hand_by_id : ℕ → TableActor → Option HandRecord
get_hand_by_id hand_id a = find_by (λ (h : HandRecord). h.hand_id == hand_id) a.hand_history
