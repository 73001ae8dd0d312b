-- ===== src/History/Replay/Actions.antt =====
-- packages/hand-history/src/replay.ts: the actions of a hand, played again.
use agent_poker.Base.Append.{append_assoc, map-append, append_nil}
use agent_poker.Base.{
  ℕ, ◌≡◌, refl, sym, ap, ◌∙◌, subst, true, false, List, [], ◌∷◌, ◌++◌, All, Option, some, ok,
  Ensures-ok, inl, inr,
}
use agent_poker.Poker.Types.{
  GameState, GameEvent, PlayerAction, ActionType, Payload, HandResult, hand_start, antes_posted,
  blinds_posted, hole_cards_dealt, community_cards_dealt, player_action, street_changed,
  hands_shown, pot_distributed, hand_end,
}
use agent_poker.Poker.Engine.Apply.{apply_action}
use agent_poker.Poker.Engine.Invariant.{IsPlaying}
use agent_poker.Poker.Engine.Hands.{apply_action-money, complete_refuses}
use agent_poker.Poker.Engine.Trace.{payloads, end_of, IsQuiet, is_action, outcome_of, end_of-append}
use agent_poker.Poker.Engine.Trace.Amounts.{is_pot_limit}
use agent_poker.Poker.Engine.Trace.Actions.{Replayable, apply_action-Replayable}
use agent_poker.History.Replay.{ReplayError, RecordedAction, action_of, actions_of, replay_actions}

-- A hand played from one state to another, with the events of all its actions.
pub data Played : GameState → GameState → List GameEvent → Type 0 where
  done : {s : GameState} → Played s s []
  acts :
      {s t u : GameState} {events more : List GameEvent} (id : ℕ) (action : PlayerAction)
      → apply_action s id action ≡ ok (t, events)
      → Played t u more
      → Played s u (events ++ more)

action_of-quiet : (seq : ℕ) (p : Payload) → is_action p ≡ false → action_of seq p ≡ []
action_of-quiet seq (hand_start players dealer config) h = refl
action_of-quiet seq (antes_posted postings total) h = refl
action_of-quiet seq (blinds_posted small big) h = refl
action_of-quiet seq (hole_cards_dealt holes) h = refl
action_of-quiet seq (community_cards_dealt s cards) h = refl
action_of-quiet seq (player_action id type amount) h = cc
action_of-quiet seq (street_changed s) h = refl
action_of-quiet seq (hands_shown hands) h = refl
action_of-quiet seq (pot_distributed paid reason) h = refl
action_of-quiet seq (hand_end result) h = refl

pub actions_of-quiet :
    (events : List GameEvent) → All IsQuiet (payloads events) → actions_of events ≡ []
actions_of-quiet [] h = refl
actions_of-quiet (e ∷ es) h = rw (action_of-quiet e.seq e.payload h.0.1) (actions_of-quiet es h.1)

pub actions_of-append :
    (xs ys : List GameEvent) → actions_of (xs ++ ys) ≡ actions_of xs ++ actions_of ys
actions_of-append [] ys = refl
actions_of-append (e ∷ es) ys =
    ap (λ l. action_of e.seq e.payload ++ l) (actions_of-append es ys)
    ∙ sym (append_assoc (action_of e.seq e.payload) (actions_of es) (actions_of ys))

-- The events of an action record that action.
actions_of-told :
    (events : List GameEvent) {id : ℕ} {type : ActionType} {amount : Option ℕ}
    {extra : List Payload}
    → payloads events ≡ player_action id type amount ∷ extra
    → All IsQuiet extra
    → (seq : ℕ) × (actions_of events
        ≡ record { seq = seq; player_id = id; type = type; amount = amount } ∷ [])
actions_of-told [] told quiet = cc
actions_of-told (e ∷ es) {id} {type} {amount} {extra} told quiet =
    let head : e.payload ≡ player_action id type amount = cc in
    let tail : payloads es ≡ extra = cc in
    (e.seq, rw (head, actions_of-quiet es (subst (All IsQuiet) (sym tail) quiet)) refl)

Played-over :
    {t u : GameState} {events : List GameEvent}
    → t.is_hand_complete ≡ true
    → Played t u events
    → (events ≡ []) × (u ≡ t)
Played-over over done = (refl, refl)
Played-over {t} over (acts id action e more) = cc (complete_refuses t id action over)

-- What a replay of the recorded actions makes of them.
pub record Replays (s u : GameState) (events : List GameEvent) : Type 0 where
  pub reached : replay_actions s (actions_of events) ≡ (u, [])
  pub ended : end_of (payloads events) ≡ outcome_of u
  pub announced :
      u.is_hand_complete ≡ true → (result : HandResult) × (u.result_summary ≡ some result)

replay_actions-cons :
    (s t : GameState) (a : RecordedAction) (as' : List RecordedAction) {events : List GameEvent}
    → s.is_hand_complete ≡ false
    → apply_action s a.player_id (record { type = a.type; amount = a.amount }) ≡ ok (t, events)
    → replay_actions s (a ∷ as') ≡ replay_actions t as'
unfolding replay_actions
replay_actions-cons s t a as' goes_on e = rw (replay_actions, goes_on, e) refl

-- An action, and what a replay makes of the later ones.
module _ {s t : GameState} {events : List GameEvent} {id : ℕ} {type : ActionType}
    (goes_on : s.is_hand_complete ≡ false) (again : Replayable s id type (t, events))
    (mode : is_pot_limit s.config.betting_mode ≡ false) where
  reaches :
      {u : GameState} (more : List GameEvent) (errors : List ReplayError)
      → replay_actions t (actions_of more) ≡ (u, errors)
      → replay_actions s (actions_of (events ++ more)) ≡ (u, errors)
  reaches more errors later =
      let (seq, told) = actions_of-told events again.tells.told again.tells.quiet in
      ap (replay_actions s) (actions_of-append events more ∙ ap (λ l. l ++ actions_of more) told)
      ∙ replay_actions-cons s t _ (actions_of more) goes_on (again.again mode)
      ∙ later

  ends :
      (more : List GameEvent)
      → end_of (payloads (events ++ more)) ≡ end_of (again.tells.extra ++ payloads more)
  ends more = ap end_of (
      map-append (λ (e : GameEvent). e.payload) events more
      ∙ ap (λ l. l ++ payloads more) again.tells.told)

  Replays-last : t.is_hand_complete ≡ true → Replays s t (events ++ [])
  unfolding replay_actions
  Replays-last over = record {
    reached = reaches [] [] refl;
    ended = ends [] ∙ ap end_of (append_nil again.tells.extra) ∙ again.tells.ended;
    announced = again.tells.announced;
  }

  Replays-acts :
      {u : GameState} (more : List GameEvent)
      → t.is_hand_complete ≡ false
      → Replays t u more
      → Replays s u (events ++ more)
  Replays-acts more playing rest = record {
    reached = reaches more [] rest.reached;
    ended =
        ends more
        ∙ end_of-append again.tells.extra (payloads more) (again.tells.ended ∙ rw playing refl)
        ∙ rest.ended;
    announced = rest.announced;
  }

pub Played-Replays :
    {s u : GameState} {events : List GameEvent}
    → IsPlaying s
    → is_pot_limit s.config.betting_mode ≡ false
    → Played s u events
    → Replays s u events
unfolding replay_actions
Played-Replays {s} h mode done = record {
  reached = refl;
  ended = rw (h.goes_on) refl;
  announced = λ over. cc h.goes_on;
}
Played-Replays {s} h mode (acts {t = t} {events = events} {more = more} id move e later) =
    let again =
      Ensures-ok (Replayable s id move.type) (apply_action s id move)
        (apply_action-Replayable s id move h) e in
    elim (apply_action-money s id move h e).1 [
      | inl over ↦
          let (none_left, same) = Played-over over later in
          subst (λ v. Replays s v (events ++ more)) (sym same)
            (subst (λ l. Replays s t (events ++ l)) (sym none_left)
              (Replays-last h.goes_on again mode over))
      | inr playing ↦ Replays-acts h.goes_on again mode more playing.goes_on (
          Played-Replays playing (ap (λ c. is_pot_limit c.betting_mode) again.tells.config ∙ mode)
            later)
    ]
