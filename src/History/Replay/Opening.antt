-- ===== src/History/Replay/Opening.antt =====
-- packages/hand-history/src/replay.ts: the events that open a hand.
use agent_poker.Base.{
  ℕ, ◌≡◌, refl, List, [], ◌∷◌, map, length, All, none, err, or_throw, find_by, ltb, ◌||◌, Ensures,
  Ensures-if, Ensures-then,
}
use agent_poker.Poker.Types.{
  Card, GameState, GameEvent, GameConfig, PlayerSetup, Posting, hand_start, type_error,
  bad_player_count,
}
use agent_poker.Poker.Positions.{get_blind_seats, get_first_to_act_preflop}
use agent_poker.Poker.Engine.State.{at_seat}
use agent_poker.Poker.Engine.Create.{
  Holes, create_initial_state, open_hand, deal_holes, opening_events, seat_players,
}
use agent_poker.Poker.Engine.Trace.{payloads, end_of, IsQuiet}

-- The events of an opening.
pub record Opens (hand_id : ℕ) (setups : List PlayerSetup) (dealer : ℕ) (config : GameConfig)
    (events : List GameEvent) : Type 0 where
  pub rest : List GameEvent
  pub started :
      events
      ≡ record { seq = 0; hand_id = hand_id; payload = hand_start setups dealer config } ∷ rest
  pub quiet : All IsQuiet (payloads rest)
  pub ended : end_of (payloads rest) ≡ none

opening_events-Opens :
    (hand_id : ℕ) (config : GameConfig) (dealer : ℕ) (setups : List PlayerSetup)
    (antes : List Posting) (ante_pot : ℕ) (small big : Posting) (holes : Holes)
    → Opens hand_id setups dealer config
        (opening_events hand_id config dealer setups antes ante_pot small big holes)
opening_events-Opens hand_id config dealer setups [] ante_pot small big holes = record {
  rest = _;
  started = refl;
  quiet = ((refl, refl), ((refl, refl), tt));
  ended = refl;
}
opening_events-Opens hand_id config dealer setups (a ∷ as') ante_pot small big holes = record {
  rest = _;
  started = refl;
  quiet = ((refl, refl), ((refl, refl), ((refl, refl), tt)));
  ended = refl;
}

abbrev pub OpensTurn : ℕ → List PlayerSetup → ℕ → GameConfig → GameState × List GameEvent → Type 0
OpensTurn hand_id setups dealer config r =
    Opens hand_id setups dealer config r.1 × (r.0.config ≡ config)

open_hand-Opens :
    (hand_id : ℕ) (setups : List PlayerSetup) (dealer : ℕ) (deck : List Card) (config : GameConfig)
    → Ensures (OpensTurn hand_id setups dealer config) (open_hand hand_id setups dealer deck config)
unfolding open_hand
open_hand-Opens hand_id setups dealer deck config =
    let seats = map (λ (p : PlayerSetup). p.seat_index) setups in
    let P = OpensTurn hand_id setups dealer config in
    Ensures-then P (deal_holes setups deck []) _ λ dealt _.
      Ensures-then P (get_blind_seats seats dealer) _ λ blinds _.
        let players = seat_players config blinds dealt.0 setups in
        Ensures-then P (or_throw (find_by (at_seat blinds.sb_seat) players) type_error) _ λ small _.
          Ensures-then P (or_throw (find_by (at_seat blinds.bb_seat) players) type_error) _ λ big _.
            Ensures-then P (get_first_to_act_preflop seats dealer) _
              λ first _. (opening_events-Opens hand_id config dealer setups _ _ _ _ _, refl)

pub create_initial_state-Opens :
    {S : Type 0} (rng : S → ℕ × S) (hand_id : ℕ) (setups : List PlayerSetup) (dealer : ℕ) (seed : S)
    (config : GameConfig)
    → Ensures
        (OpensTurn hand_id setups dealer config)
        (create_initial_state rng hand_id setups dealer seed config)
unfolding create_initial_state
create_initial_state-Opens rng hand_id setups dealer seed config =
    Ensures-if _ (ltb (length setups) 2 || ltb 6 (length setups)) (err bad_player_count) _ (λ _. tt)
      λ enough. open_hand-Opens hand_id setups dealer _ config
