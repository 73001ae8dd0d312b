-- ===== src/Tests/Histories.antt =====
-- Runs of replays and of the store of hands.
use agent_poker.Base.{
  ℕ, none, ◌≡◌, ◌≢◌, ◌||◌, refl, List, [], ◌∷◌, ◌++◌, some, true, includes, ok, arith, sort,
}
use agent_poker.Base.Keys.{IsSortedBy}
use mathlib.Core.List.{flat_map}
use agent_poker.Poker.Types.{
  GameState, GameEvent, Payload, street_changed, flop, default_nl_config, PlayerAction, fold,
}
use agent_poker.Poker.Positions.{get_next_active_seat}
use agent_poker.Poker.Deck.{seeded_rng, create_deck, shuffle_deck}
use agent_poker.Poker.Engine.Create.{create_initial_state}
use agent_poker.Poker.Engine.Apply.{apply_action, act}
use agent_poker.Poker.Engine.Legal.{get_legal_actions, get_legal_action_ranges}
use agent_poker.Poker.Engine.Trace.{outcome_of}
use agent_poker.History.HashChain.{Text}
use agent_poker.History.Replay.{replay_hand, compared}
use agent_poker.History.Replay.Actions.{Played}
use agent_poker.History.Replay.RoundTrip.{replay_hand-Played}
use agent_poker.History.Store.{MemoryHandHistoryStore, append_events, get_events, seq_of, seqs}
use agent_poker.History.Store.Kept.{get_events-append_events, append_events-Accepted}
use agent_poker.Tests.Runs.{returns, result, setups, raise_to_sixty, on_flop, bet_ten}
use agent_poker.Tests.Hands.{opened, raised, after_bet}

-- A text for each payload.
abbrev json : Payload → Text
json (street_changed street) = b's' ∷ []
json p = b'p' ∷ []

abbrev folds : PlayerAction
folds = record { type = fold; amount = none }

second_folds : returns (apply_action raised.0.0 11 folds) ≡ true
unfolding apply_action create_initial_state shuffle_deck create_deck flat_map seeded_rng sort
    get_legal_actions act get_legal_action_ranges get_next_active_seat
second_folds = refl

abbrev folded : (r : GameState × List GameEvent) × (apply_action raised.0.0 11 folds ≡ ok r)
folded = result (apply_action raised.0.0 11 folds) second_folds

third_folds : returns (apply_action folded.0.0 12 folds) ≡ true
unfolding apply_action create_initial_state shuffle_deck create_deck flat_map seeded_rng sort
    get_legal_actions act get_legal_action_ranges get_next_active_seat
third_folds = refl

abbrev won : (r : GameState × List GameEvent) × (apply_action folded.0.0 12 folds ≡ ok r)
won = result (apply_action folded.0.0 12 folds) third_folds

replay_hand-Played_example :
    replay_hand json (opened.0.1 ++ (raised.0.1 ++ (folded.0.1 ++ (won.0.1 ++ [])))) 42
    ≡ ok (record {
      final_state = some (compared (outcome_of won.0.0) won.0.0);
      valid = true;
      errors = [];
    })
replay_hand-Played_example =
    replay_hand-Played json 1 setups 0 42 default_nl_config (refl, (refl, (refl, tt)))
      (omega arith, (omega arith, (omega arith, tt))) refl opened.1
      (Played.acts 10 raise_to_sixty raised.1
        (Played.acts 11 folds folded.1 (Played.acts 12 folds won.1 Played.done)))

abbrev told : ℕ → GameEvent
told n = record { seq = n; hand_id = 1; payload = street_changed flop }

abbrev hands : MemoryHandHistoryStore
hands = (1, told 0 ∷ told 1 ∷ told 2 ∷ []) ∷ []

get_events-append_events_example :
    (◌≢◌ {A = ℕ} 1 2 → get_events 2 (append_events 1 (told 3 ∷ []) hands) ≡ get_events 2 hands)
    × IsSortedBy seq_of (get_events 1 (append_events 1 (told 3 ∷ []) hands))
    × (includes 3 (seqs (get_events 1 (append_events 1 (told 3 ∷ []) hands)))
        ≡ (includes 3 (seqs (get_events 1 hands)) || includes 3 (seqs (told 3 ∷ []))))
get_events-append_events_example = get_events-append_events 1 (told 3 ∷ []) hands 2 3

append_events-Accepted_example :
    get_events 1 (append_events 1 after_bet.0.1 hands) ≡ get_events 1 hands
unfolding apply_action get_legal_actions act get_legal_action_ranges get_next_active_seat
append_events-Accepted_example =
    append_events-Accepted 1 hands on_flop 12 bet_ten after_bet.1
      ((omega arith, (omega arith, tt)), ((omega arith, tt), (tt, tt))) λ k less. ground arith
