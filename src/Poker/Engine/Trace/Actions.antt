-- ===== src/Poker/Engine/Trace/Actions.antt =====
-- packages/poker-engine/src/engine.ts: the events of an action, and the action that they record.
use agent_poker.Base.{
  ℕ, ◌+◌, ◌≡◌, refl, ap, ◌∙◌, subst, true, false, not, List, [], ◌∷◌, Option, some, find_by, ok,
  or_throw-ok, ◌==◌, Ensures, Ensures-then, Ensures-mono, Ensures-if, Ensures-ok, Ensures-eq, arith,
}
use agent_poker.Poker.Engine.Invariant.{IsPlaying}
use agent_poker.Base.Laws.{find_by-All, find_by-key}
use agent_poker.Poker.Types.{
  GameState, PlayerState, PlayerAction, GameEvent, ActionType, invalid_action,
}
use agent_poker.Poker.Engine.State.{at_seat, has_id, get_active_player}
use agent_poker.Poker.Engine.Legal.{get_legal_actions}
use agent_poker.Poker.Engine.Apply.{perform, settle, act, apply_action, number_from, is_legal}
use agent_poker.Poker.Engine.Conserve.{Turn}
use agent_poker.Poker.Engine.Trace.{Follows, payloads}
use agent_poker.Poker.Engine.Trace.Amounts.{is_pot_limit}
use agent_poker.Poker.Engine.Trace.Moves.{
  Tells, Tells-Follows, continue_hand-Follows, Recorded, perform-Recorded,
}

payloads-number_from :
    (n : ℕ) (events : List GameEvent) → payloads (number_from n events) ≡ payloads events
payloads-number_from n [] = refl
payloads-number_from n (e ∷ es) = ap (λ l. e.payload ∷ l) (payloads-number_from (n + 1) es)

-- What an accepted action leaves for a replay: its own events, and an amount with which it is
-- accepted again, with the same result.
pub record Replayable (s : GameState) (id : ℕ) (type : ActionType) (r : Turn) : Type 0 where
  pub amount : Option ℕ
  pub tells : Tells s id type amount r
  pub again :
      is_pot_limit s.config.betting_mode ≡ false
      → apply_action s id (record { type = type; amount = amount }) ≡ ok r

settle-Tells :
    {s : GameState} {id : ℕ} {type : ActionType} {amount : Option ℕ} (player : PlayerState)
    (r : Turn)
    → Tells s id type amount r
    → Ensures (Tells s id type amount) (settle player r.0 r.1)
unfolding settle
settle-Tells {s} {id} {type} {amount} player r h =
    Ensures-if (Tells s id type amount) r.0.is_hand_complete _ _ (λ _. h)
      λ playing.
        Ensures-mono (Follows r.0 r.1) (Tells s id type amount) _
          (continue_hand-Follows player r.0 r.1 playing) λ t k. Tells-Follows h playing k

Tells-number_from :
    {s : GameState} {id : ℕ} {type : ActionType} {amount : Option ℕ} (r : Turn)
    → Tells s id type amount r
    → Tells s id type amount (r.0, number_from 0 r.1)
Tells-number_from r h = record {
  ids = h.ids;
  config = h.config;
  extra = h.extra;
  told = payloads-number_from 0 r.1 ∙ h.told;
  quiet = h.quiet;
  ended = h.ended;
  announced = h.announced;
  cleared = h.cleared;
}

abbrev ActedAgain : GameState → ℕ → PlayerAction → Turn → Type 0
ActedAgain s id action t =
    (amount : Option ℕ) × Tells s id action.type amount t
    × (is_pot_limit s.config.betting_mode ≡ false
        → act s id (record { type = action.type; amount = amount }) ≡ ok t)

module _ (s : GameState) (id : ℕ) (action : PlayerAction) (player : PlayerState)
    (h : s.is_hand_complete ≡ false) (active : get_active_player s ≡ ok player)
    (found : find_by (has_id id) s.players ≡ some player) where
  act-ActedAgain : Ensures (ActedAgain s id action) (act s id action)
  unfolding act
  act-ActedAgain = rw found (
      Ensures-then (ActedAgain s id action) (perform action.type action.amount id player s) _ λ r e.
        let (amount, tells, again) =
          Ensures-ok (Recorded s id player action.type) _
            (perform-Recorded s id player h active action.type action.amount) e in
        Ensures-then (ActedAgain s id action) (settle player r.0 r.1) _ λ t f. (
          amount,
          Tells-number_from t
              (Ensures-ok (Tells s id action.type amount) _ (settle-Tells player r tells) f),
          λ mode. rw (act, found, again mode, f),
        ))

-- The invariant finds the active player by its id.
found_active :
    (s : GameState) {active : PlayerState}
    → IsPlaying s
    → get_active_player s ≡ ok active
    → find_by (has_id active.id) s.players ≡ some active
found_active s h e =
    (find_by-All _ (at_seat s.active_player_seat_index) s.players
      (find_by-key (λ p. p.id) s.players h.sound.ids) (or_throw-ok _ invalid_action e)).0

apply_action_accepts :
    (s : GameState) (id : ℕ) (action : PlayerAction) {active : PlayerState}
    {legal : List ActionType} {t : Turn}
    → s.is_hand_complete ≡ false
    → get_active_player s ≡ ok active
    → not (active.id == id) ≡ false
    → get_legal_actions s ≡ ok legal
    → is_legal action.type legal ≡ true
    → act s id action ≡ ok t
    → apply_action s id action ≡ ok t
unfolding apply_action
apply_action_accepts s id action goes_on e same f ok_legal acted =
    simp (goes_on, e, same, f, ok_legal, acted)

-- An accepted action, with the invariant, can be replayed.
pub apply_action-Replayable :
    (s : GameState) (id : ℕ) (action : PlayerAction)
    → IsPlaying s
    → Ensures (Replayable s id action.type) (apply_action s id action)
unfolding apply_action
apply_action-Replayable s id action h =
    let Q = Replayable s id action.type in
    Ensures-if Q s.is_hand_complete _ _ (λ _. tt)
      λ goes_on. Ensures-then Q (get_active_player s) _ λ active e.
        Ensures-if Q (not (active.id == id)) _ _ (λ _. tt)
          λ same. Ensures-then Q (get_legal_actions s) _ λ legal f.
            Ensures-if Q (is_legal action.type legal) _ _
              (λ ok_legal.
                let same_id : active.id ≡ id = ground arith in
                let found =
                  subst (λ i. find_by (has_id i) s.players ≡ some active) same_id
                    (found_active s h e) in
                Ensures-eq Q (act s id action) λ t acted.
                  let (amount, tells, again) =
                    Ensures-ok (ActedAgain s id action) _
                      (act-ActedAgain s id action active goes_on e found) acted in
                  record {
                    amount = amount;
                    tells = tells;
                    again = λ mode.
                        apply_action_accepts s id (record { type = action.type; amount = amount })
                          goes_on e same f ok_legal (again mode);
                  })
              λ _. tt
