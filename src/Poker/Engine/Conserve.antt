-- ===== src/Poker/Engine/Conserve.antt =====
-- packages/poker-engine/src/engine.ts: the chips at the end of a hand.
use agent_poker.Base.{
  ℕ, suc, zero, ◌≤◌, ◌≡◌, refl, ◌∙◌, true, not, List, [], ◌∷◌, length, sum_by, ◌>>=◌, ◌==◌, Ensures,
  Ensures-bind, Ensures-mono, Ensures-then, arith, Bool-cases, inl, inr, ◌⊎◌, ltb, if◌then◌else◌,
}
use agent_poker.Base.Laws.{sum_by-update, find_by-any}
use agent_poker.Poker.Types.{GameState, PlayerState, Pot, GameEvent, Street}
use agent_poker.Poker.SidePots.{calculate_side_pots}
use agent_poker.Poker.SidePots.Conserve.{calculate_side_pots-total}
use agent_poker.Poker.Deck.{deal_cards}
use agent_poker.Poker.Engine.State.{non_folded, pot_sum}
use agent_poker.Poker.Engine.Finish.{
  Payout, add_chips, zero_pots, fold_win, show_down, finish_with, finish_hand, evaluate_players,
  shown_hands, pay_pots,
}
use agent_poker.Poker.Engine.Finish.Shares.{Paid}
use agent_poker.Poker.Engine.Finish.Pots.{pay_pots-Paid}
use agent_poker.Poker.Engine.Finish.Claims.{calculate_side_pots-Claimed}
use agent_poker.Poker.Engine.Streets.{
  deal_board, deal_until_five, deal_remaining_community, run_out, is_river, board_street,
}
use agent_poker.Poker.Engine.Invariant.{money, Sound, IsPlaying, somebody-any}

-- A state and the events so far.
abbrev pub Turn : Type 0
Turn = GameState × List GameEvent

pub pot_sum-zero : (pots : List Pot) → sum_by (λ (q : Pot). q.amount) (zero_pots pots) ≡ 0
pot_sum-zero [] = refl
pot_sum-zero (q ∷ qs) = omega (arith, pot_sum-zero qs)

-- The hand is over and no chip is made or lost.
abbrev pub Finishes : GameState → Turn → Type 0
Finishes s r = (money r.0 ≡ money s) × (r.0.is_hand_complete ≡ true)

-- No chip is made or lost, and the hand is over or goes on in order.
abbrev pub Goes : ℕ → Turn → Type 0
Goes chips r = (money r.0 ≡ chips) × ((r.0.is_hand_complete ≡ true) ⊎ IsPlaying r.0)

show_down-Finishes :
    (s : GameState) (events : List GameEvent)
    → Sound s.players s.pots
    → Ensures (Finishes s) (show_down s events)
unfolding show_down
show_down-Finishes s events h =
    Ensures-then (Finishes s) (evaluate_players s.community_cards (non_folded s.players) []) _
      λ evals _. Ensures-then (Finishes s) (shown_hands evals (non_folded s.players)) _ λ shown _.
        let start : Payout = record { players = s.players; all_winners = []; distributions = [] } in
        Ensures-bind (Paid start (sum_by (λ q. q.amount) (calculate_side_pots s.players)))
          (Finishes s) (pay_pots evals s.dealer_seat_index 0 (calculate_side_pots s.players) start)
          _
          (pay_pots-Paid evals s.dealer_seat_index 0 (calculate_side_pots s.players) start (
            calculate_side_pots-Claimed s.players h.ids h.stays
              (somebody-any s.players h.somebody)))
          λ payout paid. (
            omega (
              arith,
              paid.chips,
              pot_sum-zero s.pots,
              calculate_side_pots-total s.players h.paid,
              h.funded,
            ),
            refl,
          )

fold_win-Finishes :
    (s : GameState) (w : PlayerState) (events : List GameEvent)
    → 1 ≤ length (non_folded s.players)
    → Finishes s (fold_win s w events)
unfolding fold_win
fold_win-Finishes s w events h =
    let (x, found, _) =
      find_by-any (λ (p : PlayerState). not p.has_folded) s.players (somebody-any s.players h) in
    let moved =
      sum_by-update (λ (p : PlayerState). p.chips) (add_chips (pot_sum s)) (λ p. not p.has_folded)
        s.players found in
    (omega (arith, moved, pot_sum-zero s.pots), refl)

-- If the table is sound and the end of the hand does not throw, the chips of the table stay the
-- same, and the hand is complete.
pub finish_hand-Finishes :
    (s : GameState) (events : List GameEvent)
    → Sound s.players s.pots
    → Ensures (Finishes s) (finish_hand s events)
unfolding finish_hand
finish_hand-Finishes s events h = go (non_folded s.players)
  where
    go : (ps : List PlayerState) → Ensures (Finishes s) (finish_with ps s events)
    go [] = show_down-Finishes s events h
    go (w ∷ []) = fold_win-Finishes s w events h.somebody
    go (p ∷ q ∷ ps) = show_down-Finishes s events h

-- Dealing changes the cards only.
pub record SameTable (s : GameState) (r : Turn) : Type 0 where
  pub players : r.0.players ≡ s.players
  pub pots : r.0.pots ≡ s.pots
  pub complete : r.0.is_hand_complete ≡ s.is_hand_complete

SameTable-trans : {s : GameState} {r q : Turn} → SameTable s r → SameTable r.0 q → SameTable s q
SameTable-trans h k = record {
  players = k.players ∙ h.players;
  pots = k.pots ∙ h.pots;
  complete = k.complete ∙ h.complete;
}

pub deal_board-SameTable :
    (count : ℕ) (name : ℕ → Street) (s : GameState) (events : List GameEvent)
    → Ensures (SameTable s) (deal_board count name s events)
unfolding deal_board
deal_board-SameTable count name s events =
    Ensures-then (SameTable s) (deal_cards s.deck count) _
      λ dealt _. record { players = refl; pots = refl; complete = refl }

deal_until_five-SameTable :
    (fuel : ℕ) (s : GameState) (events : List GameEvent)
    → Ensures (SameTable s) (deal_until_five fuel s events)
unfolding deal_until_five
deal_until_five-SameTable zero s events = record { players = refl; pots = refl; complete = refl }
deal_until_five-SameTable (suc fuel) s events =
    elim (Bool-cases (ltb (length s.community_cards) 5)) [
      | inl more ↦ rw more (
          Ensures-bind (SameTable s) (SameTable s)
            (deal_board (if length s.community_cards == 0 then 3 else 1) board_street s events) _
            (deal_board-SameTable _ board_street s events)
            λ r h.
              Ensures-mono (SameTable r.0) (SameTable s) _ (deal_until_five-SameTable fuel r.0 r.1)
                λ q k. SameTable-trans h k)
      | inr done ↦ rw done (record { players = refl; pots = refl; complete = refl })
    ]

pub Sound-SameTable :
    {s : GameState} {r : Turn} → SameTable s r → Sound s.players s.pots → Sound r.0.players r.0.pots
Sound-SameTable h k = rw (h.players, h.pots) k

pub Finishes-SameTable :
    (s : GameState) (r q : Turn) → SameTable s r → Finishes r.0 q → Finishes s q
Finishes-SameTable s r q h k = (k.0 ∙ ground (arith, h.players, h.pots), k.1)

-- Dealing the rest of the board and finishing.
pub deal_and_finish :
    (s : GameState) (events : List GameEvent)
    → Sound s.players s.pots
    → Ensures (Finishes s) (deal_remaining_community s events >>= λ r. finish_hand r.0 r.1)
unfolding deal_remaining_community
deal_and_finish s events h =
    Ensures-bind (SameTable s) (Finishes s) (deal_until_five 5 s events) _
      (deal_until_five-SameTable 5 s events)
      λ r k.
        Ensures-mono (Finishes r.0) (Finishes s) _
          (finish_hand-Finishes r.0 r.1 (Sound-SameTable k h)) λ q m. Finishes-SameTable s r q k m

pub run_out-Finishes :
    (s : GameState) (events : List GameEvent)
    → Sound s.players s.pots
    → Ensures (Finishes s) (run_out s events)
unfolding run_out
run_out-Finishes s events h = elim (Bool-cases (is_river s.street)) [
  | inl yes_river ↦ rw yes_river (finish_hand-Finishes s events h)
  | inr no_river ↦ rw no_river (deal_and_finish s events h)
]
