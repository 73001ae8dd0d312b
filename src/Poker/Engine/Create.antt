-- ===== src/Poker/Engine/Create.antt =====
-- packages/poker-engine/src/engine.ts: `createInitialState`.
use agent_poker.Base.{
  ℕ, ◌+◌, ◌-◌, min, List, [], ◌∷◌, map, filter_by, find_by, sum_by, length, none, false, ◌&&◌, ◌||◌,
  ltb, ◌==◌, if◌then◌else◌, ok, err, or_throw, ◌>>=◌,
}
use agent_poker.Poker.Types.{
  Card, GameState, GameConfig, PlayerState, PlayerSetup, Posting, GameEvent, hand_start,
  antes_posted, blinds_posted, hole_cards_dealt, preflop, Outcome, bad_player_count, type_error,
}
use agent_poker.Poker.Deck.{create_deck, shuffle_deck, deal_cards}
use agent_poker.Poker.Positions.{Blinds, get_blind_seats, get_first_to_act_preflop}
use agent_poker.Poker.Engine.State.{at_seat}

-- The record `holeCardsMap`: a later entry replaces an earlier one.
abbrev pub Holes : Type 0
Holes = List (ℕ × List Card)

abbrev set_holes : ℕ → List Card → Holes → Holes
set_holes id cards [] = (id, cards) ∷ []
set_holes id cards ((key, old) ∷ holes) =
    if key == id then (id, cards) ∷ holes else (key, old) ∷ set_holes id cards holes

abbrev get_holes : Holes → ℕ → List Card
get_holes [] id = []
get_holes ((key, cards) ∷ holes) id = if key == id then cards else get_holes holes id

-- Two cards for each player, and the deck that is left.
unfoldable pub deal_holes : List PlayerSetup → List Card → Holes → Outcome (Holes × List Card)
unfolding deal_cards
deal_holes [] deck holes = ok (holes, deck)
deal_holes (p ∷ ps) deck holes =
    deal_cards deck 2 >>= λ dealt. deal_holes ps dealt.1 (set_holes p.id dealt.0 holes)

abbrev pub ante_of : GameConfig → PlayerSetup → ℕ
ante_of config p = min config.ante p.chips

abbrev pub blind_of : GameConfig → Blinds → PlayerSetup → ℕ
blind_of config blinds p =
    let left : ℕ = p.chips - ante_of config p in
    if p.seat_index == blinds.sb_seat
    then min config.small_blind left
    else if p.seat_index == blinds.bb_seat
    then min config.big_blind left
    else 0

abbrev pub posted_of : GameConfig → Blinds → PlayerSetup → ℕ
posted_of config blinds p = ante_of config p + blind_of config blinds p

-- The player after the ante and the blind. The ante is dead money: only the blind is a bet.
abbrev pub seat_player : GameConfig → Blinds → Holes → PlayerSetup → PlayerState
seat_player config blinds holes p = record {
  id = p.id;
  seat_index = p.seat_index;
  chips = p.chips - posted_of config blinds p;
  hole_cards = get_holes holes p.id;
  current_bet = blind_of config blinds p;
  total_bet_this_hand = posted_of config blinds p;
  has_folded = false;
  has_acted = false;
  is_all_in = (p.chips - posted_of config blinds p == 0) && ltb 0 (posted_of config blinds p);
}

abbrev pub seat_players : GameConfig → Blinds → Holes → List PlayerSetup → List PlayerState
seat_players config blinds holes setups = map (seat_player config blinds holes) setups

abbrev ante_postings : GameConfig → List PlayerSetup → List Posting
ante_postings config setups =
    filter_by (λ a. ltb 0 a.amount)
      (map (λ p. record { player_id = p.id; amount = ante_of config p }) setups)

-- The events of the opening, with the numbers that the source writes.
abbrev pub opening_events :
    ℕ
    → GameConfig
    → ℕ
    → List PlayerSetup
    → List Posting
    → ℕ
    → Posting
    → Posting
    → Holes
    → List GameEvent
opening_events hand_id config dealer setups antes ante_pot small big holes =
    let start : GameEvent = record {
      seq = 0;
      hand_id = hand_id;
      payload = hand_start setups dealer config;
    } in
    let blinds : ℕ → GameEvent =
      λ n. record { seq = n; hand_id = hand_id; payload = blinds_posted small big } in
    let dealt : GameEvent = record {
      seq = 2;
      hand_id = hand_id;
      payload = hole_cards_dealt holes;
    } in
    elim antes [
      | [] ↦ start ∷ blinds 1 ∷ dealt ∷ []
      | a ∷ as' ↦
          start
          ∷ record { seq = 1; hand_id = hand_id; payload = antes_posted (a ∷ as') ante_pot }
          ∷ blinds 2
          ∷ dealt
          ∷ []
    ]

abbrev pub opening_state :
    ℕ → GameConfig → ℕ → List PlayerSetup → List PlayerState → ℕ → ℕ → List Card → GameState
opening_state hand_id config dealer setups players pot first deck = record {
  hand_id = hand_id;
  config = config;
  street = preflop;
  players = players;
  dealer_seat_index = dealer;
  active_player_seat_index = first;
  community_cards = [];
  deck = deck;
  pots = record { amount = pot; eligible = map (λ p. p.id) setups } ∷ [];
  bets_this_street = 1;
  last_raise_size = config.big_blind;
  is_hand_complete = false;
  winners = none;
  result_summary = none;
}

-- The hand from a shuffled deck.
unfoldable pub open_hand :
    ℕ → List PlayerSetup → ℕ → List Card → GameConfig → Outcome (GameState × List GameEvent)
unfolding deal_holes get_blind_seats get_first_to_act_preflop
open_hand hand_id setups dealer shuffled config =
    let seats = map (λ (p : PlayerSetup). p.seat_index) setups in
    deal_holes setups shuffled [] >>= λ dealt. get_blind_seats seats dealer >>= λ blinds.
    let players = seat_players config blinds dealt.0 setups in
    let antes : ℕ = sum_by (ante_of config) setups in
    or_throw (find_by (at_seat blinds.sb_seat) players) type_error >>= λ small.
    or_throw (find_by (at_seat blinds.bb_seat) players) type_error >>= λ big.
    get_first_to_act_preflop seats dealer >>= λ first. ok (
      opening_state hand_id config dealer setups players
          (antes + sum_by (λ p. p.current_bet) players) first dealt.1,
      opening_events hand_id config dealer setups (ante_postings config setups) antes
          (record { player_id = small.id; amount = small.current_bet })
          (record { player_id = big.id; amount = big.current_bet }) dealt.0,
    )

module _ {S : Type 0} (rng : S → ℕ × S) where
  unfoldable pub create_initial_state :
      ℕ → List PlayerSetup → ℕ → S → GameConfig → Outcome (GameState × List GameEvent)
  unfolding open_hand
  create_initial_state hand_id setups dealer s config =
      if ltb (length setups) 2 || ltb 6 (length setups)
      then err bad_player_count
      else open_hand hand_id setups dealer (shuffle_deck rng create_deck s).0 config
