-- ===== src/Poker/Engine/Accepted.antt =====
-- packages/poker-engine/src/engine.ts: what `applyAction` accepts, and how it numbers its events.
use agent_poker.Base.{
  ℕ, suc, ◌+◌, ◌≡◌, refl, sym, ap, ◌∙◌, true, false, not, List, [], ◌∷◌, map, length, range_from,
  find_by, ok, or_throw, ◌==◌, Ensures, Ensures-mono, Ensures-then, Ensures-if, Ensures-ok, arith,
}
use agent_poker.Poker.Types.{
  GameState, PlayerState, PlayerAction, GameEvent, ActionType, type_error,
}
use agent_poker.Poker.Engine.State.{has_id, get_active_player}
use agent_poker.Poker.Engine.Legal.{get_legal_actions, legal_actions_of}
use agent_poker.Poker.Engine.Apply.{act, apply_action, perform, settle, is_legal, number_from}
use agent_poker.Poker.Engine.Conserve.{Turn}

-- What an accepted action tells of its state.
pub record Accepted (s : GameState) (id : ℕ) (action : PlayerAction) : Type 0 where
  pub goes_on : s.is_hand_complete ≡ false
  pub active : PlayerState
  pub found : get_active_player s ≡ ok active
  pub turn : active.id ≡ id
  pub legal : is_legal action.type (legal_actions_of s active) ≡ true

legal_same :
    (s : GameState) (active : PlayerState) {legal : List ActionType}
    → s.is_hand_complete ≡ false
    → get_active_player s ≡ ok active
    → get_legal_actions s ≡ ok legal
    → legal_actions_of s active ≡ legal
unfolding get_legal_actions
legal_same s active h e l = ground arith

-- The actions of a list of events are numbered from 0.
seq_number_from :
    (n : ℕ) (es : List GameEvent) → map (λ e. e.seq) (number_from n es) ≡ range_from n (length es)
seq_number_from n [] = refl
seq_number_from n (e ∷ es) = rw (seq_number_from (n + 1) es)

length-number_from : (n : ℕ) (es : List GameEvent) → length (number_from n es) ≡ length es
length-number_from n [] = refl
length-number_from n (e ∷ es) = ap suc (length-number_from (n + 1) es)

abbrev Numbered : Turn → Type 0
Numbered r = map (λ e. e.seq) r.1 ≡ range_from 0 (length r.1)

act-Numbered : (s : GameState) (id : ℕ) (action : PlayerAction) → Ensures Numbered (act s id action)
unfolding act
act-Numbered s id action =
    Ensures-then Numbered (or_throw (find_by (has_id id) s.players) type_error) _ λ player _.
      Ensures-then Numbered (perform action.type action.amount id player s) _ λ r _.
        Ensures-then Numbered (settle player r.0 r.1) _
          λ t _. seq_number_from 0 t.1 ∙ ap (range_from 0) (sym (length-number_from 0 t.1))

abbrev Checked : GameState → ℕ → PlayerAction → Turn → Type 0
Checked s id action r = Accepted s id action × Numbered r

apply_action-Checked :
    (s : GameState) (id : ℕ) (action : PlayerAction)
    → Ensures (Checked s id action) (apply_action s id action)
unfolding apply_action
apply_action-Checked s id action =
    Ensures-if (Checked s id action) s.is_hand_complete _ _ (λ _. tt)
      λ goes_on. Ensures-then (Checked s id action) (get_active_player s) _ λ active e.
        Ensures-if (Checked s id action) (not (active.id == id)) _ _ (λ _. tt)
          λ same. Ensures-then (Checked s id action) (get_legal_actions s) _ λ legal l.
            Ensures-if (Checked s id action) (is_legal action.type legal) _ _
              (λ allowed.
                Ensures-mono Numbered (Checked s id action) _ (act-Numbered s id action) λ r n. (
                  record {
                    goes_on = goes_on;
                    active = active;
                    found = e;
                    turn = ground arith;
                    legal = rw (legal_same s active goes_on e l) allowed;
                  },
                  n,
                ))
              λ _. tt

-- An action that is accepted is one that is legal for the player whose turn it is, in a hand that
-- is not over, and its events are numbered 0, 1, 2, ….
pub apply_action-Accepted :
    (s : GameState) (id : ℕ) (action : PlayerAction) {t : GameState} {events : List GameEvent}
    → apply_action s id action ≡ ok (t, events)
    → Accepted s id action × (map (λ e. e.seq) events ≡ range_from 0 (length events))
apply_action-Accepted s id action e =
    Ensures-ok (Checked s id action) (apply_action s id action) (apply_action-Checked s id action) e
