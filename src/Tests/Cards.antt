-- ===== src/Tests/Cards.antt =====
-- Runs of the parts of the engine: cards, seats and pots.
use agent_poker.Base.{ℕ, ◌≡◌, refl, List, [], ◌∷◌, ◌++◌, some, true, arith, All, sum_by}
use agent_poker.Base.Int.{pos, ◌≤ℤ◌}
use agent_poker.Poker.Types.{
  Card, Rank, Pot, PlayerState, HandEvaluation, high_card, pair, three_of_a_kind, ace, hearts,
  spades,
}
use agent_poker.Poker.Deck.{create_deck, shuffle_deck, seeded_rng}
use agent_poker.Poker.Deck.Shuffle.{sum_by-shuffle_deck, seeded_rng-IsRng}
use agent_poker.Poker.SidePots.{calculate_side_pots}
use agent_poker.Poker.SidePots.Conserve.{calculate_side_pots-total, pot_total}
use agent_poker.Poker.Engine.Finish.{Evals, Payout}
use agent_poker.Poker.Engine.Finish.Pots.{Claimed}
use agent_poker.Poker.Engine.Finish.Claims.{calculate_side_pots-Claimed}
use agent_poker.Poker.Evaluate.{evaluate5, evaluate_best_hand, compare_hands, choose}
use agent_poker.Poker.Evaluate.Best.{evaluate_best_hand-best, IsAmong, AtMost}
use agent_poker.Poker.Evaluate.Order.{compare_hands-trans}
use agent_poker.Tests.Runs.{seat, on_river}

-- One for an ace.
abbrev ace_count : Rank → ℕ
ace_count ace = 1
ace_count _ = 0

abbrev count_aces : Card → ℕ
count_aces c = ace_count c.rank

sum_by-shuffle_deck_example :
    sum_by count_aces (shuffle_deck seeded_rng create_deck 42).0 ≡ sum_by count_aces create_deck
sum_by-shuffle_deck_example =
    sum_by-shuffle_deck seeded_rng count_aces create_deck 42 seeded_rng-IsRng

abbrev aces : List Card
aces = record { rank = ace; suit = hearts } ∷ record { rank = ace; suit = spades } ∷ []

evaluate_best_hand-best_example :
    (best : HandEvaluation) × (evaluate_best_hand aces on_river.community_cards ≡ some best)
    × IsAmong best (choose 5 (aces ++ on_river.community_cards))
    × All (λ cards. AtMost (evaluate5 cards) best) (choose 5 (aces ++ on_river.community_cards))
evaluate_best_hand-best_example =
    evaluate_best_hand-best aces on_river.community_cards (omega arith)

abbrev high : HandEvaluation
high = record { rank = high_card; values = 0 ∷ 14 ∷ []; best_cards = [] }

abbrev kings : HandEvaluation
kings = record { rank = pair; values = 1 ∷ 13 ∷ []; best_cards = [] }

abbrev sevens : HandEvaluation
sevens = record { rank = three_of_a_kind; values = 3 ∷ 7 ∷ []; best_cards = [] }

compare_hands-trans_example : compare_hands high sevens ≤ℤ pos 0
unfolding compare_hands
compare_hands-trans_example = compare_hands-trans high kings sevens (omega arith) (omega arith)

-- Two players all-in for different totals, one who has folded and one with chips left.
abbrev stacks : List PlayerState
stacks =
    record (seat 1 0 0 20) { is_all_in = true }
    ∷ record (seat 2 1 0 50) { is_all_in = true }
    ∷ record (seat 3 2 40 10) { has_folded = true }
    ∷ seat 4 3 30 70
    ∷ []

calculate_side_pots-total_example : pot_total (calculate_side_pots stacks) ≡ 150
calculate_side_pots-total_example =
    calculate_side_pots-total stacks
      (λ e. omega arith, (λ e. omega arith, (λ e. omega arith, (λ e. omega arith, tt))))

calculate_side_pots-Claimed_example : All (Claimed stacks) (calculate_side_pots stacks)
calculate_side_pots-Claimed_example =
    calculate_side_pots-Claimed stacks (refl, (refl, (refl, (refl, tt))))
      (λ e. refl, (λ e. refl, (λ e. cc, (λ e. refl, tt)))) refl

-- Two of three players show; the dealer sits at seat 0.
abbrev river_pots : List Pot
river_pots = record { amount = 13; eligible = 12 ∷ 10 ∷ [] } ∷ []

abbrev shown : Evals
shown = (10, kings) ∷ (12, kings) ∷ []

abbrev unpaid : Payout
unpaid = record { players = on_river.players; all_winners = []; distributions = [] }
