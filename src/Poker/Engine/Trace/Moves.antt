-- ===== src/Poker/Engine/Trace/Moves.antt =====
-- packages/poker-engine/src/engine.ts: the events of a move, and the move that they record.
use agent_poker.Base.Append.{All-append}
use agent_poker.Base.{
  ℕ, min, ◌≡◌, refl, ap, ◌∙◌, true, false, List, [], ◌∷◌, ◌++◌, All, Option, none, some, length,
  update_by, ok, ◌==◌, Ensures, Ensures-bind, Ensures-then, Ensures-mono, Ensures-if, Ensures-ok,
  Ensures-eq, arith, ltb, if◌then◌else◌,
}
use agent_poker.Base.Laws.{map-map_keep, map-update_by}
use agent_poker.Poker.Types.{
  HandResult, GameState, PlayerState, GameEvent, Payload, ActionType, fold, check, call, bet, raise,
  player_action,
}
use agent_poker.Poker.Positions.{get_next_active_seat}
use agent_poker.Poker.Engine.State.{
  pot_sum, has_id, get_active_player, active_seat_indices, folded_seats, all_in_seats,
  non_folded_players,
}
use agent_poker.Poker.Engine.Legal.{is_raise_cap_reached, to_call}
use agent_poker.Poker.Engine.Finish.{event}
use agent_poker.Poker.Engine.Streets.{all_players_acted_and_matched}
use agent_poker.Poker.Engine.Apply.{
  put_in, add_to_main, reopen, bet_amount, raise_amount, commit, aggress, fold_player, check_player,
  perform, continue_hand, next_turn,
}
use agent_poker.Poker.Engine.Conserve.{Turn}
use agent_poker.Poker.Engine.Trace.{
  Follows, finish_hand-Follows, IsQuiet, payloads, ids_of, end_of, end_of-append, outcome_of,
}
use agent_poker.Poker.Engine.Trace.Amounts.{is_pot_limit, bet_again, raise_again}
use agent_poker.Poker.Engine.Trace.Streets.{Follows-still, advance_street-Follows}

-- A move is told as one action with an amount, and what follows it.
pub record Tells (s : GameState) (id : ℕ) (type : ActionType) (amount : Option ℕ) (r : Turn)
    : Type 0 where
  pub ids : ids_of r.0.players ≡ ids_of s.players
  pub config : r.0.config ≡ s.config
  pub extra : List Payload
  pub told : payloads r.1 ≡ player_action id type amount ∷ extra
  pub quiet : All IsQuiet extra
  pub ended : end_of extra ≡ outcome_of r.0
  pub announced :
      r.0.is_hand_complete ≡ true → (result : HandResult) × (r.0.result_summary ≡ some result)
  pub cleared : r.0.is_hand_complete ≡ true → pot_sum r.0 ≡ 0

pub Tells-Follows :
    {s : GameState} {id : ℕ} {type : ActionType} {amount : Option ℕ} {r q : Turn}
    → Tells s id type amount r
    → r.0.is_hand_complete ≡ false
    → Follows r.0 r.1 q
    → Tells s id type amount q
Tells-Follows {s} {id} {type} {amount} {r} {q} h open_hand k = record {
  ids = k.ids ∙ h.ids;
  config = k.config ∙ h.config;
  extra = h.extra ++ k.extra;
  told = k.appended ∙ ap (λ l. l ++ k.extra) h.told;
  quiet = All-append IsQuiet h.extra k.extra h.quiet k.quiet;
  ended = end_of-append h.extra k.extra (h.ended ∙ rw open_hand) ∙ k.ended;
  announced = k.announced;
  cleared = k.cleared;
}

pub continue_hand-Follows :
    (player : PlayerState) (s : GameState) (events : List GameEvent)
    → s.is_hand_complete ≡ false
    → Ensures (Follows s events) (continue_hand player s events)
unfolding continue_hand next_turn
continue_hand-Follows player s events h =
    Ensures-if (Follows s events) (all_players_acted_and_matched s) _ _
      (λ _. advance_street-Follows s events h)
      λ _. next (
        get_next_active_seat (active_seat_indices s) player.seat_index (folded_seats s)
          (all_in_seats s))
  where
    next : (seat : Option ℕ) → Ensures (Follows s events) (next_turn seat s events)
    next none = advance_street-Follows s events h
    next (some seat) = Follows-still s _ events refl refl h

-- A move that adds its own event only.
Tells-one :
    (s t : GameState) (id : ℕ) (type : ActionType) (amount : Option ℕ)
    → ids_of t.players ≡ ids_of s.players
    → t.config ≡ s.config
    → t.is_hand_complete ≡ false
    → Tells s id type amount (t, event s (player_action id type amount) ∷ [])
Tells-one s t id type amount same config h = record {
  ids = same;
  config = config;
  extra = [];
  told = refl;
  quiet = tt;
  ended = rw h;
  announced = λ over. cc;
  cleared = λ over. cc;
}

-- What `commit` keeps.
record SameHand (s t : GameState) : Type 0 where
  ids : ids_of t.players ≡ ids_of s.players
  config : t.config ≡ s.config
  complete : t.is_hand_complete ≡ s.is_hand_complete

module _ (s : GameState) (id : ℕ) (h : s.is_hand_complete ≡ false) where
  commit-SameHand : (amount : ℕ) → Ensures (SameHand s) (commit id amount s)
  unfolding commit
  commit-SameHand amount = Ensures-then (SameHand s) (add_to_main amount s.pots) _ λ pots e.
      record {
        ids = map-update_by (λ p. p.id) (put_in amount) (has_id id) s.players (λ p. refl);
        config = refl;
        complete = refl;
      }

  aggress-Tells :
      (type : ActionType) (amount size : ℕ)
      → Ensures (Tells s id type (some amount)) (aggress id type amount size s)
  unfolding aggress
  aggress-Tells type amount size =
      Ensures-bind (SameHand s) (Tells s id type (some amount)) (commit id amount s) _
        (commit-SameHand amount)
        λ t k.
          Tells-one s _ id type (some amount)
            (map-map_keep (λ p. p.id) (reopen id) t.players (λ p. ground arith) ∙ k.ids) k.config
            (k.complete ∙ h)

  fold-Tells :
      (amount : Option ℕ) (player : PlayerState)
      → Ensures (Tells s id fold none) (perform fold amount id player s)
  unfolding perform
  fold-Tells amount player =
      let folded : GameState = record s { players = update_by (has_id id) fold_player s.players } in
      let one : Tells s id fold none (folded, event s (player_action id fold none) ∷ []) =
        Tells-one s folded id fold none
          (map-update_by (λ p. p.id) fold_player (has_id id) s.players (λ p. refl)) refl h in
      Ensures-if (Tells s id fold none) (length (non_folded_players folded) == 1) _ _
        (λ _.
          Ensures-mono (Follows folded (event s (player_action id fold none) ∷ []))
            (Tells s id fold none) _ (finish_hand-Follows folded _) λ q m. Tells-Follows one h m)
        λ _. one

-- A move is told with an amount that leads to the same move, but for the pot limit.
abbrev pub Recorded : GameState → ℕ → PlayerState → ActionType → Turn → Type 0
Recorded s id player type r =
    (amount : Option ℕ) × Tells s id type amount r
    × (is_pot_limit s.config.betting_mode ≡ false → perform type amount id player s ≡ ok r)

module _ (s : GameState) (id : ℕ) (player : PlayerState) (h : s.is_hand_complete ≡ false)
    (active : get_active_player s ≡ ok player) where
  pub perform-Recorded :
      (type : ActionType) (asked : Option ℕ)
      → Ensures (Recorded s id player type) (perform type asked id player s)
  unfolding perform
  perform-Recorded fold asked =
      Ensures-eq (Recorded s id player fold) (perform fold asked id player s) λ r e.
        (none, Ensures-ok (Tells s id fold none) _ (fold-Tells s id h asked player) e, λ mode. e)
  perform-Recorded check asked = (
    none,
    Tells-one s _ id check none
        (map-update_by (λ p. p.id) check_player (has_id id) s.players (λ p. refl)) refl h,
    λ mode. refl,
  )
  perform-Recorded call asked =
      let called : ℕ = min (to_call s player) player.chips in
      Ensures-then (Recorded s id player call) (commit id called s) _ λ t e.
        let same = Ensures-ok (SameHand s) _ (commit-SameHand s id h called) e in
        (
          some called,
          Tells-one s t id call (some called) same.ids same.config (same.complete ∙ h),
          λ mode. rw e,
        )
  perform-Recorded bet asked =
      Ensures-then (Recorded s id player bet) (bet_amount s.config.betting_mode s player asked) _
        λ a e. Ensures-eq (Recorded s id player bet) (aggress id bet a a s) λ r f. (
          some a,
          Ensures-ok (Tells s id bet (some a)) _ (aggress-Tells s id h bet a a) f,
          λ mode. rw (bet_again s player active s.config.betting_mode asked refl mode e) f,
        )
  perform-Recorded raise asked =
      Ensures-if (Recorded s id player raise) (is_raise_cap_reached s) _ _ (λ _. tt)
        λ open_raise.
          Ensures-then (Recorded s id player raise)
            (raise_amount s.config.betting_mode s player asked) _
            λ q e.
              let size : ℕ = if ltb 0 q.1 then q.1 else s.last_raise_size in
              Ensures-eq (Recorded s id player raise) (aggress id raise q.0 size s) λ r f. (
                some q.0,
                Ensures-ok (Tells s id raise (some q.0)) _ (aggress-Tells s id h raise q.0 size) f,
                λ mode.
                    rw
                      (
                        open_raise,
                        raise_again s player active s.config.betting_mode asked refl mode e,
                      )
                      f,
              )
