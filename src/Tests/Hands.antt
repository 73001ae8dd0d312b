-- ===== src/Tests/Hands.antt =====
-- Runs of hands.
use agent_poker.Base.{◌≡◌, refl, List, [], map, length, range_from, true, ok, arith, ◌⊎◌, sort}
use agent_poker.Poker.Types.{GameState, GameEvent, default_nl_config}
use agent_poker.Poker.Positions.{get_next_active_seat}
use agent_poker.Poker.Deck.{seeded_rng, create_deck, shuffle_deck}
use mathlib.Core.List.{flat_map}
use agent_poker.Poker.Engine.Invariant.{money, Sound, IsPlaying}
use agent_poker.Poker.Engine.Apply.{apply_action, act}
use agent_poker.Poker.Engine.Legal.{get_legal_actions, get_legal_action_ranges}
use agent_poker.Poker.Engine.Hands.{apply_action-money, start, acts}
use agent_poker.Poker.Engine.Accepted.{Accepted, apply_action-Accepted}
use agent_poker.Poker.Engine.Conserve.{Turn, Finishes}
use agent_poker.Poker.Engine.Ends.{finish_hand-returns}
use agent_poker.Poker.Engine.Finish.{finish_hand}
use agent_poker.Poker.Engine.Streets.{deal_remaining_community}
use agent_poker.Poker.Engine.Create.{create_initial_state}
use agent_poker.Poker.Engine.Play.{hand-money}
use agent_poker.Poker.Engine.Board.{deal_remaining_community-returns}
use agent_poker.Tests.Runs.{
  returns, result, on_flop, on_flop_with, on_river, bet_ten, raise_to_sixty, setups,
}

on_flop-IsPlaying : IsPlaying on_flop
on_flop-IsPlaying = record {
  sound = record {
    funded = refl;
    ids = (refl, (refl, (refl, tt)));
    paid = (λ e. omega arith, (λ e. omega arith, (λ e. omega arith, tt)));
    stays = (λ e. refl, (λ e. cc, (λ e. refl, tt)));
    stakes = (omega arith, (omega arith, (omega arith, tt)));
    somebody = omega arith;
  };
  goes_on = refl;
  turn = (λ e. cc, (λ e. cc, (λ e. (refl, refl), tt)));
  two = omega arith;
}

pub bets_ten : returns (apply_action on_flop 12 bet_ten) ≡ true
unfolding apply_action get_legal_actions act get_legal_action_ranges get_next_active_seat
bets_ten = refl

-- The table after the bet of ten.
abbrev pub after_bet : (r : GameState × List GameEvent) × (apply_action on_flop 12 bet_ten ≡ ok r)
after_bet = result (apply_action on_flop 12 bet_ten) bets_ten

apply_action-money_example :
    (money after_bet.0.0 ≡ 230)
    × ((after_bet.0.0.is_hand_complete ≡ true) ⊎ IsPlaying after_bet.0.0)
apply_action-money_example = apply_action-money on_flop 12 bet_ten on_flop-IsPlaying after_bet.1

apply_action-Accepted_example :
    Accepted on_flop 12 bet_ten
    × (map (λ e. e.seq) after_bet.0.1 ≡ range_from 0 (length after_bet.0.1))
apply_action-Accepted_example = apply_action-Accepted on_flop 12 bet_ten after_bet.1

on_river-Sound : Sound on_river.players on_river.pots
on_river-Sound = record {
  funded = refl;
  ids = (refl, (refl, (refl, tt)));
  paid = (λ e. omega arith, (λ e. omega arith, (λ e. omega arith, tt)));
  stays = (λ e. refl, (λ e. cc, (λ e. refl, tt)));
  stakes = (omega arith, (omega arith, (omega arith, tt)));
  somebody = omega arith;
}

finish_hand-returns_example : (r : Turn) × (finish_hand on_river [] ≡ ok r) × Finishes on_river r
finish_hand-returns_example =
    finish_hand-returns on_river [] on_river-Sound (omega arith, (omega arith, tt))

pub opens : returns (create_initial_state seeded_rng 1 setups 0 42 default_nl_config) ≡ true
unfolding create_initial_state shuffle_deck create_deck flat_map seeded_rng sort
opens = refl

abbrev pub opened :
    (r : GameState × List GameEvent) × (create_initial_state seeded_rng 1 setups 0 42
        default_nl_config
      ≡ ok r)
opened = result (create_initial_state seeded_rng 1 setups 0 42 default_nl_config) opens

pub raises : returns (apply_action opened.0.0 10 raise_to_sixty) ≡ true
unfolding apply_action create_initial_state shuffle_deck create_deck flat_map seeded_rng sort
    get_legal_actions act get_legal_action_ranges get_next_active_seat
raises = refl

abbrev pub raised :
    (r : GameState × List GameEvent) × (apply_action opened.0.0 10 raise_to_sixty ≡ ok r)
raised = result (apply_action opened.0.0 10 raise_to_sixty) raises

hand-money_example :
    (money raised.0.0 ≡ 230) × ((raised.0.0.is_hand_complete ≡ true) ⊎ IsPlaying raised.0.0)
hand-money_example =
    hand-money seeded_rng 1 setups 0 42 default_nl_config (refl, (refl, (refl, tt)))
      (omega arith, (omega arith, (omega arith, tt))) opened.1
      (acts 10 raise_to_sixty start raised.1)

deal_remaining_community-returns_example :
    (r : Turn) × (deal_remaining_community (on_flop_with create_deck) [] ≡ ok r)
    × (length r.0.community_cards ≡ 5)
unfolding create_deck flat_map
deal_remaining_community-returns_example =
    deal_remaining_community-returns (on_flop_with create_deck) [] (omega arith) (omega arith)
