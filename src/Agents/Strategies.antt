-- ===== src/Agents/Strategies.antt =====
-- packages/agent-sdk/src: helpers.ts, strategies.ts and nl-strategies.ts, with what they read of the
-- state that an agent sees (types.ts). An action's name is its type; the place of a rank in
-- `rankOrder` is its value less two. `Math.floor(potAmount * 0.9)` is nine tenths of whole chips,
-- rounded down. The ratio of a pot controller is a double: its share of a pot is the parameter
-- `share`. A draw of a random bot is a numerator over 2^32.
use agent_poker.Base.{
  ℕ, ◌+◌, ◌-◌, ◌*◌, ◌/◌, min, max, List, [], ◌∷◌, map, length, Option, none, some, Bool, true,
  false, not, ◌&&◌, ◌||◌, ◌==◌, ltb, leb, if◌then◌else◌, filter_by,
}
use agent_poker.Poker.Types.{Card, ActionType, fold, check, call, bet, raise}
use agent_poker.Poker.Deck.{rng_range}
use agent_poker.Poker.Evaluate.{rank_value, suit_eq}
use agent_poker.Poker.Engine.Legal.{ActionRanges}
use agent_poker.Poker.Engine.Apply.{is_legal}
pub mod Chosen

pub record VisibleGameState : Type 0 where
  pub my_hole_cards : List Card
  pub my_chips : ℕ
  pub my_current_bet : ℕ
  pub opponent_bets : List ℕ
  pub pot_amount : ℕ
  pub legal_actions : List ActionType
  pub action_ranges : Option ActionRanges

pub record ChosenAction : Type 0 where
  pub action : ActionType
  pub amount : Option ℕ

abbrev pub plain : ActionType → ChosenAction
plain a = record { action = a; amount = none }

abbrev pub sized : ActionType → ℕ → ChosenAction
sized a n = record { action = a; amount = some n }

-- A field of the ranges, or what stands in for it.
abbrev pub range_or : (ActionRanges → ℕ) → ℕ → Option ActionRanges → ℕ
range_or field other none = other
range_or field other (some r) = field r

abbrev pub get_min_bet : VisibleGameState → ℕ
get_min_bet s = range_or (λ r. r.min_bet) 0 s.action_ranges

abbrev pub get_max_bet : VisibleGameState → ℕ
get_max_bet s = range_or (λ r. r.max_bet) s.my_chips s.action_ranges

abbrev pub get_min_raise : VisibleGameState → ℕ
get_min_raise s = range_or (λ r. r.min_raise) 0 s.action_ranges

abbrev pub get_max_raise : VisibleGameState → ℕ
get_max_raise s = range_or (λ r. r.max_raise) s.my_chips s.action_ranges

abbrev max_of : List ℕ → ℕ
max_of [] = 0
max_of (n ∷ ns) = max n (max_of ns)

unfoldable pub get_call_amount : VisibleGameState → ℕ
get_call_amount s = max_of s.opponent_bets - s.my_current_bet

abbrev pub tier_of : ℕ → ℕ → Bool → ℕ
tier_of high low suited =
    let pair : Bool = high == low in
    if pair && leb 10 high
    then 1
    else if (high == 12) && (low == 11) && suited
    then 1
    else if pair && leb 9 high
    then 2
    else if (high == 12) && leb 10 low
    then 2
    else if (high == 11) && (low == 10) && suited
    then 2
    else if pair && leb 7 high
    then 3
    else if (high == 12) && leb 8 low
    then 3
    else if leb 10 high && leb 9 low && suited
    then 3
    else if pair
    then 4
    else if leb 11 high && leb 8 low
    then 4
    else if suited && leb 9 high && leb 7 low
    then 4
    else 5

abbrev pub rank_place : Card → ℕ
rank_place c = rank_value c.rank - 2

unfoldable pub evaluate_hand_tier : List Card → ℕ
evaluate_hand_tier (a ∷ b ∷ []) =
    tier_of (max (rank_place a) (rank_place b)) (min (rank_place a) (rank_place b))
      (suit_eq a.suit b.suit)
evaluate_hand_tier [] = 5
evaluate_hand_tier (a ∷ []) = 5
evaluate_hand_tier (a ∷ b ∷ c ∷ cs) = 5

abbrev pub may : ActionType → VisibleGameState → Bool
may a s = is_legal a s.legal_actions

-- `CallingStation`
unfoldable pub calling_station : VisibleGameState → ChosenAction
calling_station s =
    if may check s then plain check else if may call s then plain call else plain fold

abbrev pub is_fold : ActionType → Bool
is_fold fold = true
is_fold check = false
is_fold call = false
is_fold bet = false
is_fold raise = false

abbrev pub action_at : List ActionType → ℕ → ActionType
action_at [] n = fold
action_at (a ∷ as') n = if n == 0 then a else action_at as' (n - 1)

-- `RandomBot`, with the draw.
unfoldable pub random_bot : ℕ → VisibleGameState → ChosenAction
random_bot draw s =
    let actions = filter_by (λ a. not (is_fold a)) s.legal_actions in
    plain (action_at actions (draw * length actions / rng_range))

-- Call, check or fold.
abbrev pub passive : VisibleGameState → ChosenAction
passive s = if may call s then plain call else if may check s then plain check else plain fold

abbrev pub check_or_fold : VisibleGameState → ChosenAction
check_or_fold s = if may check s then plain check else plain fold

-- `AggressiveBot`
unfoldable pub aggressive_bot : VisibleGameState → ChosenAction
aggressive_bot s = if may raise s then plain raise else if may bet s then plain bet else passive s

-- A raise or a bet of a part of the pot, within the range.
abbrev pub pot_sized : ℕ → VisibleGameState → ChosenAction
pot_sized part s =
    if may raise s
    then sized raise (max (get_min_raise s) (min part (get_max_raise s)))
    else if may bet s
    then sized bet (max (get_min_bet s) (min part (get_max_bet s)))
    else passive s

-- `TightAggressiveBot`
unfoldable pub tight_aggressive_bot : VisibleGameState → ChosenAction
unfolding evaluate_hand_tier
tight_aggressive_bot s =
    if leb (evaluate_hand_tier s.my_hole_cards) 2
    then pot_sized (s.pot_amount * 9 / 10) s
    else check_or_fold s

-- `PotControlBot`
unfoldable pub pot_control_bot : (ℕ → ℕ) → VisibleGameState → ChosenAction
unfolding evaluate_hand_tier
pot_control_bot share s =
    if (evaluate_hand_tier s.my_hole_cards == 5) && may call s
    then plain fold
    else pot_sized (share s.pot_amount) s

-- `ShortStackBot`
unfoldable pub short_stack_bot : VisibleGameState → ChosenAction
unfolding evaluate_hand_tier
short_stack_bot s =
    if leb (evaluate_hand_tier s.my_hole_cards) 3
    then (if may raise s
        then sized raise (min s.my_chips (get_max_raise s))
        else if may bet s
        then sized bet (min s.my_chips (get_max_bet s))
        else passive s)
    else check_or_fold s
