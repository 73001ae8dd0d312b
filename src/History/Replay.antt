-- ===== src/History/Replay.antt =====
-- packages/hand-history/src/replay.ts: a hand is played again from its events. `json` is the text that
-- `JSON.stringify` makes of a payload. A start with two named players, the older format, is left out.
-- Ids are sorted as texts: their numbers stand in the same order. The winners that an event of the
-- input holds are sorted in place too; that change of the input is left out.
use agent_poker.Base.{
  ℕ, ◌%◌, List, [], ◌∷◌, ◌++◌, map, take, length, sort, sort_by, ltb, Option, none, some, Bool,
  true, false, ◌&&◌, ◌==◌, if◌then◌else◌, ok, err, ◌>>=◌,
}
use agent_poker.Poker.Types.{
  GameState, GameEvent, GameConfig, PlayerSetup, ActionType, Payload, hand_start, player_action,
  HandResult, Distribution, EngineError, Outcome,
}
use agent_poker.Poker.Deck.{seeded_rng, rng_range}
use agent_poker.Poker.Engine.Create.{create_initial_state}
use agent_poker.Poker.Engine.Apply.{apply_action}
use agent_poker.Poker.Engine.Trace.{payloads, end_of}
use agent_poker.History.HashChain.{Text, text_eq, GameEventType, type_of, type_eq}
pub mod Actions
pub mod Opening
pub mod RoundTrip

pub data ReplayError : Type 0 where
  no_events missing_start bad_start initial_mismatch final_mismatch end_not_reached end_missing :
      ReplayError
  action_after_end : ℕ → ReplayError
  action_error : ℕ → EngineError → ReplayError

-- `none` is the empty object.
pub record ReplayResult : Type 0 where
  pub final_state : Option GameState
  pub valid : Bool
  pub errors : List ReplayError

abbrev pub failed : ReplayError → ReplayResult
failed e = record { final_state = none; valid = false; errors = e ∷ [] }

-- What the start of a hand tells.
pub record Start : Type 0 where
  pub hand_id : ℕ
  pub players : List PlayerSetup
  pub dealer : ℕ
  pub config : GameConfig

abbrev pub start_of : ℕ → Payload → Option Start
start_of hand_id (hand_start players dealer config) =
    some (record { hand_id = hand_id; players = players; dealer = dealer; config = config })
start_of hand_id _ = none

-- `events.find((e) => e.type === HAND_START)`
abbrev pub find_start : List GameEvent → Option Start
find_start [] = none
find_start (e ∷ es) = elim (start_of e.hand_id e.payload) [ none ↦ find_start es | some s ↦ some s ]

pub record RecordedAction : Type 0 where
  pub seq : ℕ
  pub player_id : ℕ
  pub type : ActionType
  pub amount : Option ℕ

abbrev pub action_of : ℕ → Payload → List RecordedAction
action_of seq (player_action id type amount) =
    record { seq = seq; player_id = id; type = type; amount = amount } ∷ []
action_of seq _ = []

-- `events.filter((e) => e.type === PLAYER_ACTION)`, with what is read of the payloads.
abbrev pub actions_of : List GameEvent → List RecordedAction
actions_of [] = []
actions_of (e ∷ es) = action_of e.seq e.payload ++ actions_of es

-- The loop over the actions, up to the first error.
unfoldable pub replay_actions : GameState → List RecordedAction → GameState × List ReplayError
replay_actions s [] = (s, [])
replay_actions s (a ∷ as') = elim s.is_hand_complete [
  | true ↦ (s, action_after_end a.seq ∷ [])
  | false ↦ elim (apply_action s a.player_id (record { type = a.type; amount = a.amount })) [
    | err e ↦ (s, action_error a.seq e ∷ [])
    | ok r ↦ replay_actions r.0 as'
  ]
]

abbrev paid_to : Distribution → ℕ × ℕ
paid_to d = (d.player_id, d.amount)

abbrev pub pairs_eq : List (ℕ × ℕ) → List (ℕ × ℕ) → Bool
pairs_eq [] [] = true
pairs_eq ((a, b) ∷ xs) ((c, d) ∷ ys) = (a == c) && (b == d) && pairs_eq xs ys
pairs_eq [] (y ∷ ys) = false
pairs_eq (x ∷ xs) [] = false

-- `normDist`
abbrev pub norm_dist : List Distribution → List (ℕ × ℕ)
norm_dist ds = sort_by (λ a b. ltb a.0 b.0) (map paid_to ds)

-- Lists of ids and amounts have the same text when they are equal.
unfoldable pub verify_final_state : HandResult → HandResult → Bool
verify_final_state reached expected =
    text_eq (sort reached.winners) (sort expected.winners)
    && pairs_eq (norm_dist reached.pot_distribution) (norm_dist expected.pot_distribution)

abbrev pub is_verified : Option HandResult → HandResult → Bool
is_verified none expected = false
is_verified (some reached) expected = verify_final_state reached expected

-- The comparison with the end of the hand.
unfoldable pub check_end : Option HandResult → GameState → List ReplayError
unfolding verify_final_state
check_end (some expected) s =
    if s.is_hand_complete
    then (if is_verified s.result_summary expected then [] else final_mismatch ∷ [])
    else end_not_reached ∷ []
check_end none s = if s.is_hand_complete then end_missing ∷ [] else []

-- `verifyFinalState` sorts the winners of the state in place.
abbrev pub with_sorted : Option HandResult → GameState → GameState
with_sorted none s = s
with_sorted (some r) s = record s { result_summary = some (record r { winners = sort r.winners }) }

-- The state after the comparison.
abbrev pub compared : Option HandResult → GameState → GameState
compared none s = s
compared (some expected) s = if s.is_hand_complete then with_sorted s.result_summary s else s

abbrev pub is_empty : List ReplayError → Bool
is_empty [] = true
is_empty (e ∷ es) = false

module _ (json : Payload → Text) where
  unfoldable pub same_event : GameEvent → GameEvent → Bool
  same_event e f =
      type_eq (type_of e.payload) (type_of f.payload)
      && (e.seq == f.seq)
      && (e.hand_id == f.hand_id)
      && text_eq (json e.payload) (json f.payload)

  unfoldable pub verify_event_sequence : List GameEvent → List GameEvent → Bool
  unfolding same_event
  verify_event_sequence [] [] = true
  verify_event_sequence (e ∷ es) (f ∷ fs) = same_event e f && verify_event_sequence es fs
  verify_event_sequence [] (f ∷ fs) = false
  verify_event_sequence (e ∷ es) [] = false

  -- What follows the first state.
  unfoldable pub replay_rest : GameState × List GameEvent → List GameEvent → ReplayResult
  unfolding verify_event_sequence replay_actions check_end
  replay_rest initial events =
      let opening : List ReplayError =
        if verify_event_sequence initial.1 (take (length initial.1) events)
        then []
        else initial_mismatch ∷ [] in
      let replayed = replay_actions initial.0 (actions_of events) in
      let announced = end_of (payloads events) in
      let errors = opening ++ (replayed.1 ++ check_end announced replayed.0) in
      record {
        final_state = some (compared announced replayed.0);
        valid = is_empty errors;
        errors = errors;
      }

  unfoldable pub replay_started : Option Start → List GameEvent → ℕ → Outcome ReplayResult
  unfolding create_initial_state replay_rest
  replay_started none events seed = ok (failed missing_start)
  replay_started (some start) events seed =
      if length start.players == 0
      then ok (failed bad_start)
      else create_initial_state seeded_rng start.hand_id start.players start.dealer
          (seed % rng_range) start.config
        >>= λ initial. ok (replay_rest initial events)

  -- An error of `createInitialState` is not caught.
  unfoldable pub replay_hand : List GameEvent → ℕ → Outcome ReplayResult
  unfolding replay_started
  replay_hand [] seed = ok (failed no_events)
  replay_hand (e ∷ es) seed = replay_started (find_start (e ∷ es)) (e ∷ es) seed
