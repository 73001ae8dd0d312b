-- ===== src/Poker/Engine/Streets.antt =====
-- packages/poker-engine/src/engine.ts: the end of a street, and the community cards.
use agent_poker.Base.{
  ℕ, zero, suc, List, [], ◌∷◌, ◌++◌, map, filter_by, length, Option, none, some, Bool, true, false,
  not, ◌&&◌, ◌||◌, leb, ltb, ◌==◌, if◌then◌else◌, ok, ◌>>=◌,
}
use agent_poker.Poker.Types.{
  GameState, PlayerState, GameEvent, Street, preflop, flop, turn, river, showdown, Outcome,
  community_cards_dealt, street_changed,
}
use agent_poker.Poker.Deck.{deal_cards}
use agent_poker.Poker.Positions.{get_first_to_act_postflop}
use agent_poker.Poker.Engine.State.{
  max_bet, non_folded_players, active_seat_indices, folded_seats, all_in_seats,
}
use agent_poker.Poker.Engine.Finish.{event, finish_hand}

-- The loop of `allPlayersActedAndMatched`.
abbrev pub acted_and_matched : ℕ → List PlayerState → Bool
acted_and_matched highest [] = true
acted_and_matched highest (p ∷ ps) =
    (p.has_folded || p.is_all_in || (p.has_acted && (p.current_bet == highest)))
    && acted_and_matched highest ps

unfoldable pub all_players_acted_and_matched : GameState → Bool
all_players_acted_and_matched s = acted_and_matched (max_bet s.players) s.players

abbrev pub get_next_street : Street → Option Street
get_next_street preflop = some flop
get_next_street flop = some turn
get_next_street turn = some river
get_next_street river = some showdown
get_next_street showdown = none

abbrev pub is_river : Street → Bool
is_river river = true
is_river preflop = false
is_river flop = false
is_river turn = false
is_river showdown = false

-- Deals `count` cards to the board, and announces them for a street.
unfoldable pub deal_board :
    ℕ → (ℕ → Street) → GameState → List GameEvent → Outcome (GameState × List GameEvent)
deal_board count name s events = deal_cards s.deck count >>= λ dealt.
    let board = s.community_cards ++ dealt.0 in
    ok (
      record s { deck = dealt.1; community_cards = board },
      events ++ event s (community_cards_dealt (name (length board)) dealt.0) ∷ [],
    )

abbrev pub board_street : ℕ → Street
board_street n = if leb n 3 then flop else if n == 4 then turn else river

-- The loop of `dealRemainingCommunity`, with fuel.
unfoldable pub deal_until_five :
    ℕ → GameState → List GameEvent → Outcome (GameState × List GameEvent)
unfolding deal_board
deal_until_five zero s events = ok (s, events)
deal_until_five (suc fuel) s events =
    let round =
      deal_board (if length s.community_cards == 0 then 3 else 1) board_street s events >>= λ r.
      deal_until_five fuel r.0 r.1 in
    if ltb (length s.community_cards) 5 then round else ok (s, events)

-- Each round deals a card, so five rounds are enough.
unfoldable pub deal_remaining_community :
    GameState → List GameEvent → Outcome (GameState × List GameEvent)
unfolding deal_until_five
deal_remaining_community s events = deal_until_five 5 s events

abbrev pub reset_for_street : PlayerState → PlayerState
reset_for_street p = record p { current_bet = 0; has_acted = false }

abbrev pub enter_street : Street → GameState → GameState
enter_street next s = record s {
  street = next;
  bets_this_street = 0;
  last_raise_size = s.config.big_blind;
  players = map reset_for_street s.players;
}

-- The turn goes to the first seat that can act; with none the hand is dealt out.
unfoldable pub first_turn :
    Option ℕ → GameState → List GameEvent → Outcome (GameState × List GameEvent)
first_turn none s events = deal_remaining_community s events >>= λ r. finish_hand r.0 r.1
first_turn (some seat) s events = ok (record s { active_player_seat_index = seat }, events)

-- What follows the cards of a street.
unfoldable pub open_betting :
    Street → GameState → List GameEvent → Outcome (GameState × List GameEvent)
unfolding first_turn
open_betting next s events =
    get_first_to_act_postflop (active_seat_indices s) s.dealer_seat_index (folded_seats s)
      (all_in_seats s)
    >>= λ first. first_turn first s (events ++ event s (street_changed next) ∷ [])

-- The new street, with its state entered.
unfoldable pub start_street :
    Street → GameState → List GameEvent → Outcome (GameState × List GameEvent)
unfolding deal_board open_betting finish_hand
start_street preflop s events = open_betting preflop s events
start_street flop s events = deal_board 3 (λ _. flop) s events >>= λ r. open_betting flop r.0 r.1
start_street turn s events = deal_board 1 (λ _. turn) s events >>= λ r. open_betting turn r.0 r.1
start_street river s events = deal_board 1 (λ _. river) s events >>= λ r. open_betting river r.0 r.1
start_street showdown s events = finish_hand s events

-- Nobody is left to bet: the missing cards, and the showdown.
unfoldable pub run_out : GameState → List GameEvent → Outcome (GameState × List GameEvent)
unfolding deal_remaining_community finish_hand
run_out s events =
    (if is_river s.street then ok (s, events) else deal_remaining_community s events) >>= λ r.
    finish_hand r.0 r.1

-- `nextStreet === null`, or a new street.
unfoldable pub enter_next :
    Option Street → GameState → List GameEvent → Outcome (GameState × List GameEvent)
unfolding run_out start_street
enter_next none s events = run_out s events
enter_next (some next) s events = start_street next (enter_street next s) events

unfoldable pub advance_street : GameState → List GameEvent → Outcome (GameState × List GameEvent)
unfolding run_out enter_next finish_hand
advance_street s events =
    let remaining = non_folded_players s in
    if length remaining == 1
    then finish_hand s events
    else if leb (length (filter_by (λ p. not p.is_all_in) remaining)) 1
    then run_out s events
    else enter_next (get_next_street s.street) s events
