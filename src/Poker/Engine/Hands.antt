-- ===== src/Poker/Engine/Hands.antt =====
-- packages/poker-engine/src/engine.ts: `applyAction`, and hands as sequences of actions.
use agent_poker.Base.{
  ℕ, ◌≡◌, refl, ◌∙◌, subst, true, false, not, List, find_by, some, ok, err, or_throw-ok, ◌==◌,
  Ensures, Ensures-bind, Ensures-then, Ensures-if, Ensures-ok, arith, inl, inr, ◌⊎◌,
}
use agent_poker.Base.Laws.{find_by-All, find_by-key, All-zip}
use agent_poker.Poker.Types.{
  GameState, PlayerState, PlayerAction, GameEvent, hand_already_complete, invalid_action,
}
use agent_poker.Poker.Engine.State.{has_id, at_seat, get_active_player}
use agent_poker.Poker.Engine.Legal.{get_legal_actions}
use agent_poker.Poker.Engine.Apply.{act, apply_action, perform, settle, is_legal}
use agent_poker.Poker.Engine.Invariant.{money, IsPlaying}
use agent_poker.Poker.Engine.Conserve.{Goes}
use agent_poker.Poker.Engine.Advance.{Betting, settle-Goes}
use agent_poker.Poker.Engine.Moves.{Moved, perform-Moved}

IsPlaying-Betting : {s : GameState} → IsPlaying s → Betting s
IsPlaying-Betting h = record { sound = h.sound; goes_on = h.goes_on; two = h.two }

-- The move and what follows it, for a player who can act.
act-Goes :
    (s : GameState) (action : PlayerAction) (player : PlayerState)
    → Betting s
    → find_by (has_id player.id) s.players ≡ some player
    → player.has_folded ≡ false
    → player.is_all_in ≡ false
    → Ensures (Goes (money s)) (act s player.id action)
unfolding act
act-Goes s action player b found in_hand can_act = rw found (
    Ensures-bind (Moved (money s)) (Goes (money s))
      (perform action.type action.amount player.id player s) _
      (perform-Moved s player.id player b found in_hand can_act action.type action.amount)
      λ r m.
        Ensures-bind (Goes (money s)) (Goes (money s)) (settle player r.0 r.1) _
          (subst (λ n. Ensures (Goes n) (settle player r.0 r.1)) m.0
            (settle-Goes player r.0 r.1 m.1))
          λ t g. g)

-- An action neither makes nor loses chips, and after it the hand is complete or goes on in order.
pub apply_action-Goes :
    (s : GameState) (id : ℕ) (action : PlayerAction)
    → IsPlaying s
    → Ensures (Goes (money s)) (apply_action s id action)
unfolding apply_action
apply_action-Goes s id action h =
    Ensures-if (Goes (money s)) s.is_hand_complete _ _ (λ _. tt)
      λ _. Ensures-then (Goes (money s)) (get_active_player s) _ λ active e.
        Ensures-if (Goes (money s)) (not (active.id == id)) _ _ (λ _. tt)
          λ same. Ensures-then (Goes (money s)) (get_legal_actions s) _ λ legal _.
            Ensures-if (Goes (money s)) (is_legal action.type legal) _ _
              (λ _.
                let found = or_throw-ok _ invalid_action e in
                let (facts, here) =
                  find_by-All _ (at_seat s.active_player_seat_index) s.players
                    (All-zip _ _ s.players (find_by-key (λ p. p.id) s.players h.sound.ids) h.turn)
                    found in
                let can = facts.1 here in
                let same_id : active.id ≡ id = ground arith in
                subst (λ i. Ensures (Goes (money s)) (act s i action)) same_id
                  (act-Goes s action active (IsPlaying-Betting h) facts.0 can.0 can.1))
              λ _. tt

-- An action that is accepted in a hand that satisfies the invariant keeps the chips of the table,
-- stacks and pots together, and leaves a hand that is over or satisfies the invariant again.
pub apply_action-money :
    (s : GameState) (id : ℕ) (action : PlayerAction) {t : GameState} {events : List GameEvent}
    → IsPlaying s
    → apply_action s id action ≡ ok (t, events)
    → (money t ≡ money s) × ((t.is_hand_complete ≡ true) ⊎ IsPlaying t)
apply_action-money s id action h e =
    Ensures-ok (Goes (money s)) (apply_action s id action) (apply_action-Goes s id action h) e

-- The states that accepted actions lead to.
pub data Plays (s : GameState) : GameState → Type 0 where
  start : Plays s s
  acts :
      {t u : GameState} {events : List GameEvent} (id : ℕ) (action : PlayerAction)
      → Plays s t
      → apply_action t id action ≡ ok (u, events)
      → Plays s u

pub complete_refuses :
    (t : GameState) (id : ℕ) (action : PlayerAction)
    → t.is_hand_complete ≡ true
    → apply_action t id action ≡ err hand_already_complete
unfolding apply_action
complete_refuses t id action h = ground arith

-- However a hand is played on from a state that satisfies the invariant, the chips of the table
-- stay the same, and the hand is over or satisfies the invariant.
pub Plays-money :
    {s t : GameState}
    → IsPlaying s
    → Plays s t
    → (money t ≡ money s) × ((t.is_hand_complete ≡ true) ⊎ IsPlaying t)
Plays-money h start = (refl, inr h)
Plays-money {s} h (acts {t = t} id action before e) =
    let (same, state) = Plays-money h before in
    elim state [
      | inl over ↦ cc (complete_refuses t id action over)
      | inr playing ↦
          let (kept, next) = apply_action-money t id action playing e in (kept ∙ same, next)
    ]
