-- ===== src/Poker/Engine/Trace.antt =====
-- packages/poker-engine/src/engine.ts: what the end of a hand adds to the events, and the players it
-- leaves.
pub mod Streets
pub mod Amounts
pub mod Moves
pub mod Actions
use agent_poker.Base.Append.{All-append, append_assoc, map-append}
use agent_poker.Base.{
  ℕ, ◌+◌, ◌≡◌, refl, sym, ap, ◌∙◌, Bool, true, false, not, ◌&&◌, List, [], ◌∷◌, ◌++◌, map, All,
  Option, none, some, length, filter_by, update_by, ok, err, ◌>>=◌, ◌==◌, Ensures, Ensures-bind,
  Ensures-then, Ensures-mono, Ensures-if, arith, Bool-cases, Option-cases, inl, inr, find_by, ltb,
  if◌then◌else◌,
}
use agent_poker.Base.Laws.{map-update_by}
use agent_poker.Poker.Types.{
  GameState, PlayerState, Pot, GameEvent, Payload, hand_start, antes_posted, blinds_posted,
  hole_cards_dealt, community_cards_dealt, player_action, street_changed, hands_shown,
  pot_distributed, hand_end, HandResult, Shown, EngineError,
}
use agent_poker.Poker.SidePots.{calculate_side_pots}
use agent_poker.Poker.Engine.State.{non_folded, pot_sum, has_id}
use agent_poker.Poker.Engine.Finish.{
  Evals, Payout, add_chips, fold_win, show_down, finish_with, finish_hand, evaluate_players,
  shown_hands, close_hand, pay, pay_winners, seat_of, evals_of, seats_of, split_pot, pay_eligible,
  pay_pot, pay_pots, pot_winners, is_in_hand, is_seat,
}
use agent_poker.Poker.Engine.Conserve.{Turn, pot_sum-zero}

abbrev pub payloads : List GameEvent → List Payload
payloads events = map (λ (e : GameEvent). e.payload) events

abbrev pub ids_of : List PlayerState → List ℕ
ids_of players = map (λ (p : PlayerState). p.id) players

abbrev pub is_start : Payload → Bool
is_start (hand_start players dealer config) = true
is_start _ = false

abbrev pub is_action : Payload → Bool
is_action (player_action id type amount) = true
is_action _ = false

abbrev pub end_result : Payload → Option HandResult
end_result (hand_end result) = some result
end_result _ = none

-- The result that the first end of a hand announces.
abbrev pub end_of : List Payload → Option HandResult
end_of [] = none
end_of (p ∷ ps) = elim (end_result p) [ none ↦ end_of ps | some r ↦ some r ]

abbrev pub IsQuiet : Payload → Type 0
IsQuiet p = (is_start p ≡ false) × (is_action p ≡ false)

-- The result of a hand that is over.
abbrev pub outcome_of : GameState → Option HandResult
outcome_of s = if s.is_hand_complete then s.result_summary else none

-- What a turn that goes on from a state has added.
pub record Follows (s : GameState) (events : List GameEvent) (r : Turn) : Type 0 where
  pub ids : ids_of r.0.players ≡ ids_of s.players
  pub config : r.0.config ≡ s.config
  pub extra : List Payload
  pub appended : payloads r.1 ≡ payloads events ++ extra
  pub quiet : All IsQuiet extra
  pub ended : end_of extra ≡ outcome_of r.0
  pub announced :
      r.0.is_hand_complete ≡ true → (result : HandResult) × (r.0.result_summary ≡ some result)
  pub cleared : r.0.is_hand_complete ≡ true → pot_sum r.0 ≡ 0

pub end_of-append : (ps qs : List Payload) → end_of ps ≡ none → end_of (ps ++ qs) ≡ end_of qs
end_of-append [] qs h = refl
end_of-append (p ∷ ps) qs h = elim (Option-cases (end_result p)) [
  | inl e ↦ rw (end_of, e) (end_of-append ps qs (rw (end_of, e) at h))
  | inr (r, e) ↦ cc (rw (end_of, e) at h)
]

-- One turn after another, the first of which does not end the hand.
pub Follows-trans :
    {s : GameState} {events : List GameEvent} {r q : Turn}
    → Follows s events r
    → r.0.is_hand_complete ≡ false
    → Follows r.0 r.1 q
    → Follows s events q
Follows-trans {s} {events} {r} {q} h open_hand k = record {
  ids = k.ids ∙ h.ids;
  config = k.config ∙ h.config;
  extra = h.extra ++ k.extra;
  appended =
      k.appended
      ∙ ap (λ l. l ++ k.extra) h.appended
      ∙ append_assoc (payloads events) h.extra k.extra;
  quiet = All-append IsQuiet h.extra k.extra h.quiet k.quiet;
  ended = end_of-append h.extra k.extra (h.ended ∙ rw open_hand) ∙ k.ended;
  announced = k.announced;
  cleared = k.cleared;
}

-- A payout keeps the players.
abbrev SameIds : Payout → Payout → Type 0
SameIds p q = ids_of q.players ≡ ids_of p.players

pay-SameIds :
    (pot_index id amount : ℕ) (p : Payout) → Ensures (SameIds p) (pay pot_index id amount p)
unfolding pay
pay-SameIds pot_index id amount p = elim (Option-cases (find_by (has_id id) p.players)) [
  | inl e ↦ rw (e, pay) tt
  | inr (x, e) ↦
      rw (e, pay) (map-update_by (λ q. q.id) (add_chips amount) (has_id id) p.players (λ q. refl))
]

pay_winners-SameIds :
    (pot_index share : ℕ) (earliest : Option ℕ) (remainder : ℕ) (ids : List ℕ) (p : Payout)
    → Ensures (SameIds p) (pay_winners pot_index share earliest remainder ids p)
unfolding pay_winners
pay_winners-SameIds pot_index share earliest remainder [] p = refl
pay_winners-SameIds pot_index share earliest remainder (id ∷ ids) p =
    Ensures-then (SameIds p) (seat_of p.players id) _ λ seat _.
      Ensures-bind (SameIds p) (SameIds p) (pay pot_index id _ p) _ (pay-SameIds pot_index id _ p)
        λ q h.
          Ensures-mono (SameIds q) (SameIds p) _
            (pay_winners-SameIds pot_index share earliest
              (if ltb 0 remainder && is_seat earliest seat then 0 else remainder) ids q)
            λ r k. k ∙ h

pay_eligible-SameIds :
    (evals : Evals) (dealer pot_index amount : ℕ) (ids : List ℕ) (p : Payout)
    → Ensures (SameIds p) (pay_eligible evals dealer pot_index amount ids p)
unfolding pay_eligible split_pot
pay_eligible-SameIds evals dealer pot_index amount [] p = refl
pay_eligible-SameIds evals dealer pot_index amount (id ∷ []) p = pay-SameIds pot_index id amount p
pay_eligible-SameIds evals dealer pot_index amount (id ∷ next ∷ ids) p =
    Ensures-then (SameIds p) (evals_of evals (id ∷ next ∷ ids)) _ λ ranked _.
      Ensures-then (SameIds p) (seats_of p.players (pot_winners ranked)) _
        λ seats _. pay_winners-SameIds pot_index _ _ _ (pot_winners ranked) p

pay_pots-SameIds :
    (evals : Evals) (dealer pot_index : ℕ) (pots : List Pot) (p : Payout)
    → Ensures (SameIds p) (pay_pots evals dealer pot_index pots p)
unfolding pay_pots pay_pot
pay_pots-SameIds evals dealer pot_index [] p = refl
pay_pots-SameIds evals dealer pot_index (q ∷ qs) p =
    Ensures-bind (SameIds p) (SameIds p) (pay_pot evals dealer pot_index q p) _
      (Ensures-if (SameIds p) (q.amount == 0) _ _ (λ _. refl)
        λ _. pay_eligible-SameIds evals dealer pot_index q.amount _ p)
      λ r h.
        Ensures-mono (SameIds r) (SameIds p) _ (pay_pots-SameIds evals dealer (pot_index + 1) qs r)
          λ t k. k ∙ h

show_down-Follows :
    (s : GameState) (events : List GameEvent) → Ensures (Follows s events) (show_down s events)
unfolding show_down
show_down-Follows s events =
    Ensures-then (Follows s events) (evaluate_players s.community_cards (non_folded s.players) []) _
      λ evals _.
        Ensures-then (Follows s events) (shown_hands evals (non_folded s.players)) _ λ shown _.
          let start : Payout = record {
            players = s.players;
            all_winners = [];
            distributions = [];
          } in
          Ensures-bind (SameIds start) (Follows s events)
            (pay_pots evals s.dealer_seat_index 0 (calculate_side_pots s.players) start) _
            (pay_pots-SameIds evals s.dealer_seat_index 0 (calculate_side_pots s.players) start)
            λ payout same. record {
              ids = same;
              config = refl;
              extra = _;
              appended = map-append _ events _;
              quiet = ((refl, refl), ((refl, refl), ((refl, refl), tt)));
              ended = refl;
              announced = λ _. (_, refl);
              cleared = λ _. pot_sum-zero s.pots;
            }

fold_win-Follows :
    (s : GameState) (w : PlayerState) (events : List GameEvent)
    → Follows s events (fold_win s w events)
unfolding fold_win
fold_win-Follows s w events = record {
  ids =
      map-update_by (λ q. q.id) (add_chips (pot_sum s)) (λ p. not p.has_folded) s.players
        (λ q. refl);
  config = refl;
  extra = _;
  appended = map-append _ events _;
  quiet = ((refl, refl), ((refl, refl), tt));
  ended = refl;
  announced = λ _. (_, refl);
  cleared = λ _. pot_sum-zero s.pots;
}

pub finish_hand-Follows :
    (s : GameState) (events : List GameEvent) → Ensures (Follows s events) (finish_hand s events)
unfolding finish_hand
finish_hand-Follows s events = go (non_folded s.players)
  where
    go : (ps : List PlayerState) → Ensures (Follows s events) (finish_with ps s events)
    go [] = show_down-Follows s events
    go (w ∷ []) = fold_win-Follows s w events
    go (p ∷ q ∷ ps) = show_down-Follows s events
