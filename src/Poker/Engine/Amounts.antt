-- ===== src/Poker/Engine/Amounts.antt =====
-- packages/poker-engine/src/engine.ts: the amounts of bets and raises.
use agent_poker.Base.{ℕ, ◌-◌, ◌≤◌, Option, ok, ◌>>=◌, Ensures, Ensures-bind, Ensures-then, arith}
use agent_poker.Poker.Types.{GameState, PlayerState, BettingMode, limit, no_limit, pot_limit}
use agent_poker.Poker.Engine.Legal.{to_call, get_legal_action_ranges}
use agent_poker.Poker.Engine.Apply.{or_else, checked_amount, bet_amount, raise_amount}

checked_amount-le :
    (chips low high requested : ℕ)
    → Ensures (λ a. a ≤ chips) (checked_amount chips low high requested)
checked_amount-le chips low high requested = ground arith

-- In every betting mode a bet that is accepted is at most the stack.
pub bet_amount-le :
    (mode : BettingMode) (s : GameState) (player : PlayerState) (amount : Option ℕ)
    → Ensures (λ a. a ≤ player.chips) (bet_amount mode s player amount)
unfolding bet_amount
bet_amount-le limit s player amount = omega arith
bet_amount-le no_limit s player amount =
    Ensures-then (λ a. a ≤ player.chips) (get_legal_action_ranges s) _
      λ r _. checked_amount-le player.chips r.min_bet r.max_bet _
bet_amount-le pot_limit s player amount =
    Ensures-then (λ a. a ≤ player.chips) (get_legal_action_ranges s) _
      λ r _. checked_amount-le player.chips r.min_bet r.max_bet _

checked_raise :
    (s : GameState) (player : PlayerState) (amount : Option ℕ)
    → Ensures
        (λ (r : ℕ × ℕ). r.0 ≤ player.chips)
        (get_legal_action_ranges s >>= λ r.
          checked_amount player.chips r.min_raise r.max_raise (or_else amount r.min_raise) >>= λ a.
          ok (a, a - to_call s player))
checked_raise s player amount =
    Ensures-then (λ (r : ℕ × ℕ). r.0 ≤ player.chips) (get_legal_action_ranges s) _
      λ r _.
        Ensures-bind (λ a. a ≤ player.chips) (λ (r : ℕ × ℕ). r.0 ≤ player.chips)
          (checked_amount player.chips r.min_raise r.max_raise (or_else amount r.min_raise)) _
          (checked_amount-le player.chips r.min_raise r.max_raise _) λ a h. h

-- In every betting mode the chips of a raise that is accepted are at most the stack.
pub raise_amount-le :
    (mode : BettingMode) (s : GameState) (player : PlayerState) (amount : Option ℕ)
    → Ensures (λ (r : ℕ × ℕ). r.0 ≤ player.chips) (raise_amount mode s player amount)
unfolding raise_amount
raise_amount-le limit s player amount = omega arith
raise_amount-le no_limit s player amount = checked_raise s player amount
raise_amount-le pot_limit s player amount = checked_raise s player amount
