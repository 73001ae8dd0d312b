-- ===== src/Poker/Engine/Ends.antt =====
-- packages/poker-engine/src/engine.ts: `finishHand` on a table in order.
use agent_poker.Base.{◌≤◌, ◌≡◌, refl, List, [], ◌∷◌, ◌++◌, length, All, ok, Ensures-ok}
use agent_poker.Poker.Types.{GameState, PlayerState, GameEvent}
use agent_poker.Poker.Engine.State.{non_folded}
use agent_poker.Poker.Engine.Finish.{finish_hand, finish_with, fold_win}
use agent_poker.Poker.Engine.Finish.Claims.{calculate_side_pots-Claimed}
use agent_poker.Poker.Engine.Finish.Total.{show_down-Returns}
use agent_poker.Poker.Engine.Invariant.{Sound, somebody-any}
use agent_poker.Poker.Engine.Conserve.{Turn, Finishes, finish_hand-Finishes}

-- Every player in the hand has five cards to choose from.
abbrev pub AllDealt : GameState → Type 0
AllDealt s = All (λ p. 5 ≤ length (p.hole_cards ++ s.community_cards)) (non_folded s.players)

finish_with-Returns :
    (s : GameState) (events : List GameEvent)
    → Sound s.players s.pots
    → AllDealt s
    → (r : Turn) × (finish_hand s events ≡ ok r)
unfolding finish_hand finish_with
finish_with-Returns s events h cards = go (non_folded s.players)
  where
    go : (ps : List PlayerState) → (r : Turn) × (finish_with ps s events ≡ ok r)
    go [] =
        show_down-Returns s events cards
          (calculate_side_pots-Claimed s.players h.ids h.stays (somebody-any s.players h.somebody))
    go (w ∷ []) = (fold_win s w events, refl)
    go (p ∷ q ∷ ps) =
        show_down-Returns s events cards
          (calculate_side_pots-Claimed s.players h.ids h.stays (somebody-any s.players h.somebody))

-- On a sound table where every player in the hand has five cards to choose from, the end of the
-- hand returns, the chips of the table stay the same, and the hand is complete.
pub finish_hand-returns :
    (s : GameState) (events : List GameEvent)
    → Sound s.players s.pots
    → AllDealt s
    → (r : Turn) × (finish_hand s events ≡ ok r) × Finishes s r
finish_hand-returns s events h cards =
    let (r, e) = finish_with-Returns s events h cards in
    (r, e, Ensures-ok (Finishes s) (finish_hand s events) (finish_hand-Finishes s events h) e)
