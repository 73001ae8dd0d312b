-- ===== src/Poker/Engine/Trace/Amounts.antt =====
-- packages/poker-engine/src/engine.ts: the amounts that the events of bets and raises record.
use agent_poker.Base.{
  ℕ, ◌+◌, ◌-◌, ◌≤◌, min, ◌≡◌, ap, ◌∙◌, subst, true, false, Bool, Option, some, ok, >>=-eq-ok,
  ok_inj, arith,
}
use agent_poker.Poker.Types.{GameState, PlayerState, BettingMode, limit, no_limit, pot_limit}
use agent_poker.Poker.Engine.State.{get_active_player}
use agent_poker.Poker.Engine.Legal.{
  min_raise_increment, get_legal_action_ranges, ranges_of, to_call,
}
use agent_poker.Poker.Engine.Apply.{bet_amount, raise_amount, checked_amount, or_else}

-- The amount that a bet is told with leads to the same bet, but for the pot limit.
abbrev pub is_pot_limit : BettingMode → Bool
is_pot_limit limit = false
is_pot_limit no_limit = false
is_pot_limit pot_limit = true

checked_again :
    (chips low requested : ℕ) {a : ℕ}
    → low ≤ chips
    → checked_amount chips low chips requested ≡ ok a
    → checked_amount chips low chips a ≡ ok a
checked_again chips low requested h e = ground arith

module _ (s : GameState) (player : PlayerState) (active : get_active_player s ≡ ok player) where
  ranges-active : get_legal_action_ranges s ≡ ok (ranges_of s.config.betting_mode s player)
  unfolding get_legal_action_ranges
  ranges-active = rw active

  ranges-no_limit :
      s.config.betting_mode ≡ no_limit
      → get_legal_action_ranges s ≡ ok (ranges_of no_limit s player)
  ranges-no_limit m = ranges-active ∙ ap (λ b. ok (ranges_of b s player)) m

  pub bet_again :
      (mode : BettingMode) (amount : Option ℕ) {a : ℕ}
      → s.config.betting_mode ≡ mode
      → is_pot_limit mode ≡ false
      → bet_amount mode s player amount ≡ ok a
      → bet_amount mode s player (some a) ≡ ok a
  unfolding bet_amount ranges_of
  bet_again limit amount m h e = e
  bet_again no_limit amount m h e = rw (ranges-no_limit m) (
      checked_again player.chips (min s.config.big_blind player.chips) _ (omega arith)
        (rw (ranges-no_limit m) at e))
  bet_again pot_limit amount m h e = cc

  pub raise_again :
      (mode : BettingMode) (amount : Option ℕ) {r : ℕ × ℕ}
      → s.config.betting_mode ≡ mode
      → is_pot_limit mode ≡ false
      → raise_amount mode s player amount ≡ ok r
      → raise_amount mode s player (some r.0) ≡ ok r
  unfolding raise_amount ranges_of
  raise_again limit amount m h e = e
  raise_again no_limit amount {r} m h e =
      let low : ℕ = min (to_call s player + min_raise_increment s) player.chips in
      let (a, checked, later) =
        >>=-eq-ok (checked_amount player.chips low player.chips (or_else amount low))
          (λ a. ok (a, a - to_call s player)) (rw (ranges-no_limit m) at e) in
      subst (λ (q : ℕ × ℕ). raise_amount no_limit s player (some q.0) ≡ ok q) (ok_inj later)
        (rw (
          raise_amount,
          ranges-no_limit m,
          checked_again player.chips low (or_else amount low) (omega arith) checked,
        ))
  raise_again pot_limit amount m h e = cc
