-- ===== src/Agents/Strategies/Chosen.antt =====
-- packages/agent-sdk/src/nl-strategies.ts: what the strategies choose.
use agent_poker.Base.{
  ℕ, ◌≤◌, ◌≡◌, refl, min, List, Option, none, some, true, arith, Bool-cases, inl, inr,
  if◌then◌else◌, leb, ◌&&◌, ◌==◌, ◌*◌, ◌/◌,
}
use agent_poker.Poker.Engine.Legal.{legal_actions_of, ranges_of}
use agent_poker.Poker.Types.{
  GameState, PlayerState, no_limit, ActionType, fold, check, call, bet, raise,
}
use agent_poker.Agents.Strategies.{
  VisibleGameState, ChosenAction, sized, may, passive, check_or_fold, pot_sized, get_min_bet,
  get_max_bet, get_min_raise, get_max_raise, evaluate_hand_tier, tight_aggressive_bot,
  pot_control_bot, short_stack_bot,
}

-- The amount lies in the range of its action.
abbrev pub InRange : VisibleGameState → ActionType → Option ℕ → Type 0
InRange s raise (some n) = (get_min_raise s ≤ n) × (n ≤ get_max_raise s)
InRange s bet (some n) = (get_min_bet s ≤ n) × (n ≤ get_max_bet s)
InRange s fold (some n) = Unit
InRange s check (some n) = Unit
InRange s call (some n) = Unit
InRange s a none = Unit

-- A choice that the engine's lists allow.
abbrev pub IsAllowed : VisibleGameState → ChosenAction → Type 0
IsAllowed s c = (may c.action s ≡ true) × InRange s c.action c.amount

module _ (s : VisibleGameState) (folds : may fold s ≡ true)
    (raises : get_min_raise s ≤ get_max_raise s) (bets : get_min_bet s ≤ get_max_bet s) where
  passive-IsAllowed : IsAllowed s (passive s)
  passive-IsAllowed = elim (Bool-cases (may call s)) [
    | inl c ↦ rw c (c, tt)
    | inr c ↦
        rw c (elim (Bool-cases (may check s)) [ inl k ↦ rw k (k, tt) | inr k ↦ rw k (folds, tt) ])
  ]

  check_or_fold-IsAllowed : IsAllowed s (check_or_fold s)
  check_or_fold-IsAllowed = elim (Bool-cases (may check s)) [
    | inl k ↦ rw k (k, tt)
    | inr k ↦ rw k (folds, tt)
  ]

  pot_sized-IsAllowed : (part : ℕ) → IsAllowed s (pot_sized part s)
  pot_sized-IsAllowed part = elim (Bool-cases (may raise s)) [
    | inl r ↦ rw r (r, (omega arith, omega arith))
    | inr r ↦ rw r (elim (Bool-cases (may bet s)) [
      | inl b ↦ rw b (b, (omega arith, omega arith))
      | inr b ↦ rw b passive-IsAllowed
    ])
  ]

  tight_aggressive_bot-IsAllowed : IsAllowed s (tight_aggressive_bot s)
  unfolding tight_aggressive_bot
  tight_aggressive_bot-IsAllowed = elim (Bool-cases (leb (evaluate_hand_tier s.my_hole_cards) 2)) [
    | inl strong ↦ rw strong (pot_sized-IsAllowed (s.pot_amount * 9 / 10))
    | inr weak ↦ rw weak check_or_fold-IsAllowed
  ]

  pot_control_bot-IsAllowed : (share : ℕ → ℕ) → IsAllowed s (pot_control_bot share s)
  unfolding pot_control_bot
  pot_control_bot-IsAllowed share =
      elim (Bool-cases ((evaluate_hand_tier s.my_hole_cards == 5) && may call s)) [
        | inl weak ↦ rw weak (folds, tt)
        | inr fair ↦ rw fair (pot_sized-IsAllowed (share s.pot_amount))
      ]

  module _ (can_raise : get_min_raise s ≤ s.my_chips) (can_bet : get_min_bet s ≤ s.my_chips) where
    pushes-IsAllowed : IsAllowed s (
        if may raise s
        then sized raise (min s.my_chips (get_max_raise s))
        else if may bet s
        then sized bet (min s.my_chips (get_max_bet s))
        else passive s)
    pushes-IsAllowed = elim (Bool-cases (may raise s)) [
      | inl r ↦ rw r (r, (omega arith, omega arith))
      | inr r ↦ rw r (elim (Bool-cases (may bet s)) [
        | inl b ↦ rw b (b, (omega arith, omega arith))
        | inr b ↦ rw b passive-IsAllowed
      ])
    ]

    short_stack_bot-IsAllowed : IsAllowed s (short_stack_bot s)
    unfolding short_stack_bot
    short_stack_bot-IsAllowed = elim (Bool-cases (leb (evaluate_hand_tier s.my_hole_cards) 3)) [
      | inl push ↦ rw push pushes-IsAllowed
      | inr weak ↦ rw weak check_or_fold-IsAllowed
    ]

-- What the engine shows to a player in no limit.
abbrev pub seen_by : GameState → PlayerState → List ℕ → ℕ → VisibleGameState
unfolding legal_actions_of ranges_of
seen_by g p opponent_bets pot = record {
  my_hole_cards = p.hole_cards;
  my_chips = p.chips;
  my_current_bet = p.current_bet;
  opponent_bets = opponent_bets;
  pot_amount = pot;
  legal_actions = legal_actions_of g p;
  action_ranges = some (ranges_of no_limit g p);
}

-- In no limit, given the legal actions and the ranges that the engine computes for a player,
-- whatever the other bets, the pot and the share of it that the pot controller takes, each of the
-- tight aggressive, pot control and short stack strategies chooses an action that is legal, and a
-- bet or a raise with an amount has it within the range.
pub strategies-IsAllowed :
    (g : GameState) (p : PlayerState) (opponent_bets : List ℕ) (pot : ℕ) (share : ℕ → ℕ)
    → let s = seen_by g p opponent_bets pot in
      IsAllowed s (tight_aggressive_bot s)
      × IsAllowed s (pot_control_bot share s)
      × IsAllowed s (short_stack_bot s)
unfolding legal_actions_of ranges_of
strategies-IsAllowed g p opponent_bets pot share =
    let s = seen_by g p opponent_bets pot in
    let folds : may fold s ≡ true = refl in
    let raises : get_min_raise s ≤ get_max_raise s = omega arith in
    let bets : get_min_bet s ≤ get_max_bet s = omega arith in
    (
      tight_aggressive_bot-IsAllowed s folds raises bets,
      pot_control_bot-IsAllowed s folds raises bets share,
      short_stack_bot-IsAllowed s folds raises bets (omega arith) (omega arith),
    )
