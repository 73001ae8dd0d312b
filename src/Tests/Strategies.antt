-- ===== src/Tests/Strategies.antt =====
-- Runs of the strategies.
use agent_poker.Base.{◌/◌, []}
use agent_poker.Agents.Strategies.{tight_aggressive_bot, pot_control_bot, short_stack_bot}
use agent_poker.Agents.Strategies.Chosen.{IsAllowed, seen_by, strategies-IsAllowed}
use agent_poker.Tests.Runs.{on_flop, seat}

strategies-IsAllowed_example :
    IsAllowed
      (seen_by on_flop (seat 12 4 75 5) [] 13)
      (tight_aggressive_bot (seen_by on_flop (seat 12 4 75 5) [] 13))
    × IsAllowed
        (seen_by on_flop (seat 12 4 75 5) [] 13)
        (pot_control_bot (λ n. n / 2) (seen_by on_flop (seat 12 4 75 5) [] 13))
    × IsAllowed
        (seen_by on_flop (seat 12 4 75 5) [] 13)
        (short_stack_bot (seen_by on_flop (seat 12 4 75 5) [] 13))
strategies-IsAllowed_example = strategies-IsAllowed on_flop (seat 12 4 75 5) [] 13 (λ n. n / 2)
