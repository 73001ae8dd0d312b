-- ===== src/Poker/Engine/Legal.antt =====
-- packages/poker-engine/src/engine.ts: legal actions and the ranges of their amounts.
use agent_poker.Base.{
  ℕ, ◌+◌, ◌-◌, min, max, List, [], ◌∷◌, Bool, true, false, not, ◌&&◌, leb, ltb, ◌==◌, if◌then◌else◌,
  ok, ◌>>=◌,
}
use agent_poker.Poker.Types.{
  GameState, PlayerState, ActionType, fold, check, call, bet, raise, BettingMode, limit, no_limit,
  pot_limit, Street, preflop, flop, turn, river, showdown, Outcome,
}
use agent_poker.Poker.Engine.State.{get_active_player, max_current_bet, pot_sum}

unfoldable pub is_raise_cap_reached : GameState → Bool
is_raise_cap_reached s =
    if s.config.max_raises_per_street == 0
    then false
    else leb s.config.max_raises_per_street s.bets_this_street

-- `highestBet - player.currentBet`; the highest bet is that of some player, so it is no lower.
abbrev pub to_call : GameState → PlayerState → ℕ
to_call s p = max_current_bet s - p.current_bet

unfoldable pub legal_actions_of : GameState → PlayerState → List ActionType
unfolding is_raise_cap_reached
legal_actions_of s player =
    fold
    ∷ (if to_call s player == 0
        then check ∷ (if not (is_raise_cap_reached s) && ltb 0 player.chips then bet ∷ [] else [])
        else call
          ∷ (if not (is_raise_cap_reached s) && ltb (to_call s player) player.chips
              then raise ∷ []
              else []))

unfoldable pub get_legal_actions : GameState → Outcome (List ActionType)
unfolding legal_actions_of
get_legal_actions s =
    if s.is_hand_complete
    then ok []
    else get_active_player s >>= λ player. ok (legal_actions_of s player)

pub record ActionRanges : Type 0 where
  pub min_bet : ℕ
  pub max_bet : ℕ
  pub min_raise : ℕ
  pub max_raise : ℕ

abbrev is_small_street : Street → Bool
is_small_street preflop = true
is_small_street flop = true
is_small_street turn = false
is_small_street river = false
is_small_street showdown = false

abbrev pub fixed_bet_size : GameState → ℕ
fixed_bet_size s = if is_small_street s.street then s.config.small_bet else s.config.big_bet

abbrev pub min_raise_increment : GameState → ℕ
min_raise_increment s = max s.last_raise_size s.config.big_blind

unfoldable pub ranges_of : BettingMode → GameState → PlayerState → ActionRanges
ranges_of limit s player = record {
  min_bet = fixed_bet_size s;
  max_bet = fixed_bet_size s;
  min_raise = to_call s player + fixed_bet_size s;
  max_raise = to_call s player + fixed_bet_size s;
}
ranges_of no_limit s player = record {
  min_bet = min s.config.big_blind player.chips;
  max_bet = player.chips;
  min_raise = min (to_call s player + min_raise_increment s) player.chips;
  max_raise = player.chips;
}
ranges_of pot_limit s player = record {
  min_bet = min s.config.big_blind player.chips;
  max_bet = min (pot_sum s) player.chips;
  min_raise = min (to_call s player + min_raise_increment s) player.chips;
  max_raise = min (to_call s player + (pot_sum s + to_call s player)) player.chips;
}

unfoldable pub get_legal_action_ranges : GameState → Outcome ActionRanges
unfolding ranges_of
get_legal_action_ranges s =
    get_active_player s >>= λ player. ok (ranges_of s.config.betting_mode s player)
