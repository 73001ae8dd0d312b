-- ===== src/Tests/Tables.antt =====
-- Runs of tables and of the queue.
use agent_poker.Base.{
  ◌⊎◌, ℕ, ◌≡◌, refl, List, [], ◌∷◌, ◌++◌, filter_by, Option, none, some, Bool, true, false, ok, err,
  arith,
}
use agent_poker.Poker.Types.{GameState, PlayerAction, fold, EngineError, not_your_turn}
use agent_poker.Poker.Positions.{get_next_active_seat}
use agent_poker.Poker.Engine.Apply.{apply_action, act}
use agent_poker.Poker.Engine.Legal.{get_legal_actions, get_legal_action_ranges}
use agent_poker.Server.Table.{
  TableActor, SeatInfo, Method, engine, replay_detected, seated, left, new_table, nl_variant,
  add_seat, first_free, of_agent,
}
use agent_poker.Server.Table.Hand.{
  Processed, start_hand, process_action, process_with, process_in, run_action, after_action,
  complete_hand, prepared, last_seq, not_after,
}
use agent_poker.Server.Table.Sound.{SeatsSound}
use agent_poker.Base.{All, Bool-cases, inl, inr}
use agent_poker.Server.Table.Cases.{start_hand-cases, process_action-cases}
use agent_poker.History.HashChain.{Text}
use agent_poker.Poker.Types.{Payload, GameEvent}
use agent_poker.Server.Table.Hand.{note_seq}
use agent_poker.Poker.Engine.Trace.Amounts.{is_pot_limit}
use agent_poker.Server.Table.Records.{IsReplayed, Banked-IsReplayed}
use agent_poker.Server.Table.Served.{Served, Served-SeatsSound}
use agent_poker.Server.Table.Chips.{Banked, Balanced, Banked-Balanced}
use agent_poker.Server.Table.Requests.{
  process_action-again, process_action-replayed, process_action-throws,
}
use agent_poker.Server.Table.Stuck.{start_hand-stuck, complete_hand-rejoined}
use agent_poker.Tests.Runs.{returns, impossible, on_flop, bet_ten}

abbrev pub empty_table : TableActor
empty_table = new_table (b't' ∷ []) none (some nl_variant) none

abbrev seat_at : ℕ → ℕ → ℕ → SeatInfo
seat_at index id chips = record {
  seat_index = index;
  agent_id = id;
  seat_token = 7;
  buy_in_amount = chips;
  chips = chips;
  status = seated;
}

abbrev one_seat : TableActor
one_seat = record empty_table { seats = seat_at 0 10 100 ∷ [] }

abbrev pub two_seats : TableActor
two_seats = record empty_table { seats = seat_at 0 10 100 ∷ seat_at 1 11 50 ∷ [] }

first_joins : add_seat 10 7 100 empty_table ≡ (one_seat, ok (seat_at 0 10 100))
unfolding add_seat first_free
first_joins = refl

second_joins : add_seat 11 7 50 one_seat ≡ (two_seats, ok (seat_at 1 11 50))
unfolding add_seat first_free
second_joins = refl

abbrev fold_now : PlayerAction
fold_now = record { type = fold; amount = none }

Banked-Balanced_example :
    Balanced 150 (process_action 10 fold_now (some (b'r' ∷ [])) (some 3) (start_hand two_seats).0).0
Banked-Balanced_example = Banked-Balanced (
    Banked.acts 10 fold_now (some (b'r' ∷ [])) (some 3)
      (Banked.starts
        (Banked.joins 11 7 50
          (Banked.joins 10 7 100 (Banked.opens (b't' ∷ []) none (some nl_variant) none refl) refl
            first_joins refl)
          refl second_joins refl)
        (omega arith, (omega arith, tt)) refl)
      refl)

abbrev json : Payload → Text
json p = b'p' ∷ []

abbrev after_fold : TableActor
after_fold = (process_action 10 fold_now (some (b'r' ∷ [])) (some 3) (start_hand two_seats).0).0

abbrev InNoLimit : TableActor → Type 0
InNoLimit a = is_pot_limit a.config.betting_mode ≡ false

folds-InNoLimit : InNoLimit after_fold
unfolding after_action complete_hand
folds-InNoLimit =
    let started = start_hand-cases InNoLimit two_seats refl refl λ r _ _. refl in
    process_action-cases InNoLimit 10 fold_now (some (b'r' ∷ [])) (some 3) (start_hand two_seats).0
      started started λ s r _ _. ends r (note_seq 10 (some 3) (start_hand two_seats).0) started
  where
    ends :
        (r : GameState × List GameEvent) (a : TableActor)
        → InNoLimit a
        → InNoLimit (after_action (some (b'r' ∷ [])) r a)
    ends r a h = elim (Bool-cases r.0.is_hand_complete) [
      | inl over ↦ simp (after_action, complete_hand, over) h
      | inr going ↦ simp (after_action, complete_hand, going) h
    ]

Banked-IsReplayed_example : All (IsReplayed json) after_fold.hand_history
Banked-IsReplayed_example = Banked-IsReplayed json folds-InNoLimit (
    Banked.acts 10 fold_now (some (b'r' ∷ [])) (some 3)
      (Banked.starts
        (Banked.joins 11 7 50
          (Banked.joins 10 7 100 (Banked.opens (b't' ∷ []) none (some nl_variant) none refl) refl
            first_joins refl)
          refl second_joins refl)
        (omega arith, (omega arith, tt)) refl)
      refl)

Served-SeatsSound_example :
    ((add_seat 10 7 100 empty_table).0.max_seats ≡ 6)
    × SeatsSound (add_seat 10 7 100 empty_table).0.max_seats (add_seat 10 7 100 empty_table).0.seats
Served-SeatsSound_example =
    Served-SeatsSound (b't' ∷ []) none (some nl_variant) none
      (Served.joins 10 7 100 Served.opens refl)

-- A table with a hand on the flop.
abbrev playing_table : TableActor
playing_table = record empty_table {
  seats = seat_at 0 10 100 ∷ seat_at 2 11 50 ∷ seat_at 4 12 80 ∷ [];
  current_state = some on_flop;
}

abbrev is_some : {A : Type 0} → Option A → Bool
is_some none = false
is_some (some a) = true

abbrev present : {A : Type 0} (o : Option A) → is_some o ≡ true → (a : A) × (o ≡ some a)
present none h = impossible h
present (some a) h = (a, refl)

abbrev bets : Method Processed
bets = process_action 12 bet_ten (some (b'r' ∷ [])) (some 3) playing_table

abbrev answer : (m : Method Processed) → returns m.1 ≡ true → (p : Processed) × (m ≡ (m.0, ok p))
answer (a, ok p) h = (p, refl)
answer (a, err e) h = impossible h

bets_returns : returns bets.1 ≡ true
unfolding process_action process_with process_in run_action apply_action get_legal_actions act
    get_legal_action_ranges get_next_active_seat
bets_returns = refl

bets_go_on : is_some bets.0.current_state ≡ true
unfolding process_action process_with process_in run_action after_action apply_action
    get_legal_actions act get_legal_action_ranges get_next_active_seat
bets_go_on = refl

abbrev state_after : (s : GameState) × (bets.0.current_state ≡ some s)
state_after = present bets.0.current_state bets_go_on

process_action-again_example :
    process_action 11 fold_now (some (b'r' ∷ [])) none bets.0
    ≡ (bets.0, ok (record { state = state_after.0; events = []; already_processed = true }))
process_action-again_example =
    process_action-again (b'r' ∷ []) 12 11 bet_ten fold_now (some 3) none playing_table refl
      (answer bets bets_returns).1 state_after.1

went : (answer bets bets_returns).0.already_processed ≡ false
unfolding process_action process_with process_in run_action apply_action get_legal_actions act
    get_legal_action_ranges get_next_active_seat
went = refl

process_action-replayed_example :
    (not_after 3 (last_seq 12 playing_table.seq_per_seat) ≡ false)
    × (process_action 12 bet_ten none (some 2) bets.0 ≡ (bets.0, err replay_detected))
process_action-replayed_example =
    process_action-replayed 12 3 2 bet_ten bet_ten (some (b'r' ∷ [])) none playing_table
      (answer bets bets_returns).1 went state_after.1 refl (omega arith)

refused :
    process_action 10 bet_ten none (some 4) playing_table
    ≡ (note_seq 10 (some 4) playing_table, err (engine not_your_turn))
unfolding process_action process_with process_in run_action apply_action
refused = refl

process_action-throws_example :
    (note_seq 10 (some 4) playing_table ≡ playing_table)
    ⊎ ((x : EngineError) × (engine not_your_turn ≡ engine x)
        × (note_seq 10 (some 4) playing_table ≡ note_seq 10 (some 4) playing_table))
process_action-throws_example = process_action-throws 10 bet_ten none (some 4) playing_table refused

-- The dealer's seat is empty.
abbrev no_dealer : TableActor
no_dealer = record two_seats { dealer_seat_index = some 5 }

start_hand-stuck_example :
    (x : EngineError) × (start_hand no_dealer ≡ (prepared no_dealer, err (engine x)))
start_hand-stuck_example = start_hand-stuck no_dealer refl refl

-- An agent who left seat 0 sits at seat 4 now.
abbrev came_back : TableActor
came_back = record playing_table {
  seats = record (seat_at 0 12 3) { status = left } ∷ seat_at 4 12 80 ∷ [];
}

complete_hand-rejoined_example :
    (before : List SeatInfo) × (first : SeatInfo) × (after : List SeatInfo) × ((complete_hand
        on_flop came_back).seats
      ≡ before ++ first ∷ after)
    × (first.agent_id ≡ 12)
    × (filter_by (of_agent 12) after ≡ seat_at 4 12 80 ∷ [])
complete_hand-rejoined_example =
    complete_hand-rejoined on_flop came_back [] (record (seat_at 0 12 3) { status = left })
      (seat_at 4 12 80 ∷ []) refl
