-- ===== src/Poker/Evaluate.antt =====
-- packages/poker-engine/src/evaluate.ts: the value of five cards, the best five of seven, and the
-- order of values. The descriptions are left out.
use agent_poker.Base.{
  ℕ, zero, suc, ◌+◌, ◌-◌, max, List, [], ◌∷◌, ◌++◌, map, filter_by, find_by, length, get_or, every,
  sort_by, Bool, true, false, ◌&&◌, ◌||◌, not, ltb, ◌==◌, if◌then◌else◌, Option, none, some,
}
use agent_poker.Base.Int.{ℤ, pos, sub_ℕ, is_positive}
use agent_poker.Poker.Types.{
  Card, Suit, hearts, diamonds, clubs, spades, Rank, two, three, four, five, six, seven, eight,
  nine, ten, jack, queen, king, ace, HandEvaluation, HandRankType, high_card, pair, two_pair,
  three_of_a_kind, straight, flush, full_house, four_of_a_kind, straight_flush,
}
pub mod Order
pub mod Best

abbrev pub rank_value : Rank → ℕ
rank_value two = 2
rank_value three = 3
rank_value four = 4
rank_value five = 5
rank_value six = 6
rank_value seven = 7
rank_value eight = 8
rank_value nine = 9
rank_value ten = 10
rank_value jack = 11
rank_value queen = 12
rank_value king = 13
rank_value ace = 14

abbrev pub suit_eq : Suit → Suit → Bool
suit_eq hearts hearts = true
suit_eq diamonds diamonds = true
suit_eq clubs clubs = true
suit_eq spades spades = true
suit_eq _ _ = false

-- The numbers of the enum `HandRankType`.
abbrev pub hand_rank_value : HandRankType → ℕ
hand_rank_value high_card = 0
hand_rank_value pair = 1
hand_rank_value two_pair = 2
hand_rank_value three_of_a_kind = 3
hand_rank_value straight = 4
hand_rank_value flush = 5
hand_rank_value full_house = 6
hand_rank_value four_of_a_kind = 7
hand_rank_value straight_flush = 8

-- `rankCounts.set(v, (rankCounts.get(v) ?? 0) + 1)` on a map in insertion order.
abbrev count_rank : ℕ → List (ℕ × ℕ) → List (ℕ × ℕ)
count_rank v [] = (v, 1) ∷ []
count_rank v ((w, n) ∷ counts) =
    if w == v then (w, n + 1) ∷ counts else (w, n) ∷ count_rank v counts

abbrev count_ranks : List (ℕ × ℕ) → List ℕ → List (ℕ × ℕ)
count_ranks counts [] = counts
count_ranks counts (v ∷ vs) = count_ranks (count_rank v counts) vs

-- `(a, b) => b[1] - a[1] || b[0] - a[0]`
abbrev before_count : ℕ × ℕ → ℕ × ℕ → Bool
before_count a b = ltb b.1 a.1 || (a.1 == b.1 && ltb b.0 a.0)

-- `new Set(values).size`: the values with no equal value behind them.
abbrev distinct_size : List ℕ → ℕ
distinct_size [] = 0
distinct_size (v ∷ vs) = elim (find_by (λ w. w == v) vs) [
  | none ↦ suc (distinct_size vs)
  | some _ ↦ distinct_size vs
]

abbrev descending : ℕ → ℕ → Bool
descending a b = ltb b a

-- The values of the ranks that occur `n` times, highest first.
abbrev counted : ℕ → List (ℕ × ℕ) → List ℕ
counted n counts = sort_by descending (map (λ c. c.0) (filter_by (λ c. c.1 == n) counts))

abbrev first_counted : ℕ → List (ℕ × ℕ) → ℕ
first_counted n counts = elim (find_by (λ c. c.1 == n) counts) [ none ↦ 0 | some c ↦ c.0 ]

abbrev is_normal_straight : List ℕ → Bool
is_normal_straight values =
    (get_or values 0 0 == get_or values 4 0 + 4) && (distinct_size values == 5)

abbrev is_wheel : List ℕ → Bool
is_wheel values =
    (get_or values 0 0 == 14)
    && (get_or values 1 0 == 5)
    && (get_or values 2 0 == 4)
    && (get_or values 3 0 == 3)
    && (get_or values 4 0 == 2)

-- The ladder of `evaluate5`, from what it computed of the cards.
abbrev pub classify :
    (is_flush is_straight : Bool) (high : ℕ) (values : List ℕ) (counts : List (ℕ × ℕ))
    → HandRankType × List ℕ
classify is_flush is_straight high values counts =
    let c0 : ℕ × ℕ = get_or counts 0 (0, 0) in
    let c1 : ℕ × ℕ = get_or counts 1 (0, 0) in
    if is_straight && is_flush
    then (straight_flush, high ∷ [])
    else if c0.1 == 4
    then (four_of_a_kind, c0.0 ∷ c1.0 ∷ [])
    else if c0.1 == 3 && c1.1 == 2
    then (full_house, c0.0 ∷ c1.0 ∷ [])
    else if is_flush
    then (flush, values)
    else if is_straight
    then (straight, high ∷ [])
    else if c0.1 == 3
    then (three_of_a_kind, c0.0 ∷ counted 1 counts)
    else if c0.1 == 2 && c1.1 == 2
    then (two_pair, counted 2 counts ++ first_counted 1 counts ∷ [])
    else if c0.1 == 2
    then (pair, c0.0 ∷ counted 1 counts)
    else (high_card, values)

unfoldable pub evaluate5 : List Card → HandEvaluation
unfolding sort_by
evaluate5 cards =
    let sorted = sort_by (λ a b. ltb (rank_value b.rank) (rank_value a.rank)) cards in
    let values = map (λ (c : Card). rank_value c.rank) sorted in
    let is_flush : Bool = elim sorted [
      | [] ↦ true
      | c ∷ cs ↦ every (λ d. suit_eq d.suit c.suit) cs
    ] in
    let normal : Bool = is_normal_straight values in
    let high : ℕ = if normal then get_or values 0 0 else if is_wheel values then 5 else 0 in
    let counts = sort_by before_count (count_ranks [] values) in
    let result : HandRankType × List ℕ =
      classify is_flush (normal || is_wheel values) high values counts in
    record { rank = result.0; values = result.1; best_cards = sorted }

-- The loop of `compareHands` over the values; a missing value is 0.
unfoldable pub compare_values : List ℕ → List ℕ → ℤ
compare_values [] [] = pos 0
compare_values (a ∷ as') [] = if a == 0 then compare_values as' [] else sub_ℕ a 0
compare_values [] (b ∷ bs) = if b == 0 then compare_values [] bs else sub_ℕ 0 b
compare_values (a ∷ as') (b ∷ bs) = if a == b then compare_values as' bs else sub_ℕ a b

unfoldable pub compare_hands : HandEvaluation → HandEvaluation → ℤ
unfolding compare_values
compare_hands a b =
    if hand_rank_value a.rank == hand_rank_value b.rank
    then compare_values a.values b.values
    else sub_ℕ (hand_rank_value a.rank) (hand_rank_value b.rank)

-- The choices of `k` cards in the order of the nested loops.
unfoldable pub choose : ℕ → List Card → List (List Card)
choose zero cards = [] ∷ []
choose (suc k) [] = []
choose (suc k) (c ∷ cards) = map (λ chosen. c ∷ chosen) (choose k cards) ++ choose (suc k) cards

-- `if (!best || compareHands(evaluation, best) > 0) best = evaluation`
unfoldable pub better_of : Option HandEvaluation → HandEvaluation → Option HandEvaluation
better_of none e = some e
better_of (some best) e = if is_positive (compare_hands e best) then some e else some best

unfoldable pub best_of : Option HandEvaluation → List (List Card) → Option HandEvaluation
unfolding better_of
best_of best [] = best
best_of best (cards ∷ rest) = best_of (better_of best (evaluate5 cards)) rest

-- `none` is the `null` that the source returns for fewer than five cards.
unfoldable pub evaluate_best_hand : List Card → List Card → Option HandEvaluation
unfolding best_of choose
evaluate_best_hand hole_cards community_cards =
    best_of none (choose 5 (hole_cards ++ community_cards))
