-- ===== src/Poker/Engine/Finish/Total.antt =====
-- packages/poker-engine/src/engine.ts: when `finishHand` returns.
use agent_poker.Base.{
  ℕ, ◌+◌, ◌≤◌, ◌≡◌, refl, sym, ◌∙◌, subst, Bool, true, false, not, ◌&&◌, List, [], ◌∷◌, ◌++◌, map,
  length, filter_by, find_by, any, All, ltb, includes, Option, some, ok, ◌==◌, ==_iff, ◌⊎◌,
  Bool-cases, Option-cases, inl, inr, if◌then◌else◌, Ensures, Ensures-ok, Ensures-then,
  Ensures-bind, ◌/◌, ◌-◌, ◌*◌, sort_by, insert_sorted,
}
use agent_poker.Base.Laws.{All-map}
use agent_poker.Poker.Types.{PlayerState, Pot, HandEvaluation, GameState, GameEvent}
use agent_poker.Base.Int.{is_positive, is_negative}
use agent_poker.Poker.Evaluate.{compare_hands}
use agent_poker.Poker.SidePots.{calculate_side_pots}
use agent_poker.Poker.Engine.State.{has_id, non_folded}
use agent_poker.Poker.Engine.Finish.{
  Evals, Payout, pay, seats_of, get_eval, clockwise_seats, pay_winners, evals_of, is_seat,
  tied_with_best, pot_winners, split_pot, is_in_hand, pay_eligible, pay_pot, pay_pots, show_down,
  close_hand,
}
use agent_poker.Poker.Engine.Finish.Pots.{Claimed, pay_pot-Paid, any-cong}
use agent_poker.Poker.Engine.Finish.Shares.{Paid, pay-Paid}
use agent_poker.Poker.Engine.Finish.Evaluated.{
  Returns, has_eval, evaluate_players-Returns, shown_hands-Returns, evals_of-Returns,
}

found_in_hand :
    (players : List PlayerState) (id : ℕ)
    → is_in_hand players id ≡ true
    → (p : PlayerState) × (find_by (has_id id) players ≡ some p)
found_in_hand players id h = elim (Option-cases (find_by (has_id id) players)) [
  | inl t ↦ cc (rw (is_in_hand, t) at h)
  | inr t ↦ t
]

pay-Returns :
    (pot_index id amount : ℕ) (payout : Payout)
    → is_in_hand payout.players id ≡ true
    → Returns (pay pot_index id amount payout)
unfolding pay
pay-Returns pot_index id amount payout h =
    let (p, e) = found_in_hand payout.players id h in rw (pay, e) (_, refl)

seats_of-Returns :
    (players : List PlayerState) (ids : List ℕ)
    → All (λ id. is_in_hand players id ≡ true) ids
    → Returns (seats_of players ids)
unfolding seats_of
seats_of-Returns players [] h = ([], refl)
seats_of-Returns players (id ∷ ids) h =
    let (p, e) = found_in_hand players id h.0 in
    let (rest, g) = seats_of-Returns players ids h.1 in (p.seat_index ∷ rest, rw (seats_of, e, g))

pay_winners-Returns :
    (pot_index share : ℕ) (earliest : Option ℕ) (remainder : ℕ) (ids : List ℕ) (payout : Payout)
    → All (λ id. is_in_hand payout.players id ≡ true) ids
    → Returns (pay_winners pot_index share earliest remainder ids payout)
unfolding pay_winners
pay_winners-Returns pot_index share earliest remainder [] payout h = (payout, refl)
pay_winners-Returns pot_index share earliest remainder (id ∷ ids) payout h =
    let (p, e) = found_in_hand payout.players id h.0 in
    let hit : Bool = ltb 0 remainder && is_seat earliest p.seat_index in
    let amount : ℕ = share + (if hit then remainder else 0) in
    let (q, f) = pay-Returns pot_index id amount payout h.0 in
    let paid = Ensures-ok (Paid payout amount) _ (pay-Paid pot_index id amount payout) f in
    let (r, g) =
      pay_winners-Returns pot_index share earliest (if hit then 0 else remainder) ids q
        (All-map _ _ (λ i k. paid.in_hand i ∙ k) ids h.1) in
    (r, rw (pay_winners, e, f, g))

-- A property of all ids that are ranked holds of all that tie with the best.
tied_with_best-All :
    (P : ℕ → Type 0) (evals : Evals) → All (λ r. P r.0) evals → All P (tied_with_best evals)
unfolding tied_with_best
tied_with_best-All P [] h = tt
tied_with_best-All P ((id, best) ∷ rest) h =
    kept
      (λ r.
        not (is_positive (compare_hands r.1 best)) && not (is_negative (compare_hands r.1 best)))
      ((id, best) ∷ rest) h
  where
    kept :
        (f : ℕ × HandEvaluation → Bool) (rs : Evals)
        → All (λ r. P r.0) rs
        → All P (map (λ r. r.0) (filter_by f rs))
    kept f [] a = tt
    kept f (r ∷ rs) a = elim (Bool-cases (f r)) [
      | inl t ↦ rw t (a.0, kept f rs a.1)
      | inr t ↦ rw t (kept f rs a.1)
    ]

insert_sorted-All :
    (P : ℕ → Type 0) (before : ℕ × HandEvaluation → ℕ × HandEvaluation → Bool)
    (r : ℕ × HandEvaluation) (rs : Evals)
    → P r.0
    → All (λ q. P q.0) rs
    → All (λ q. P q.0) (insert_sorted before r rs)
unfolding insert_sorted
insert_sorted-All P before r [] k h = (k, tt)
insert_sorted-All P before r (q ∷ rs) k h = elim (Bool-cases (before q r)) [
  | inl t ↦ rw t (h.0, insert_sorted-All P before r rs k h.1)
  | inr t ↦ rw t (k, h)
]

sort_by-All :
    (P : ℕ → Type 0) (before : ℕ × HandEvaluation → ℕ × HandEvaluation → Bool) (rs : Evals)
    → All (λ q. P q.0) rs
    → All (λ q. P q.0) (sort_by before rs)
unfolding sort_by
sort_by-All P before [] h = tt
sort_by-All P before (r ∷ rs) h =
    insert_sorted-All P before r (sort_by before rs) h.0 (sort_by-All P before rs h.1)

-- The players that are ranked are those that were asked for.
evals_of-All :
    (P : ℕ → Type 0) (evals : Evals) (ids : List ℕ)
    → All P ids
    → Ensures (All (λ r. P r.0)) (evals_of evals ids)
unfolding evals_of
evals_of-All P evals [] h = tt
evals_of-All P evals (id ∷ ids) h = Ensures-then (All (λ r. P r.0)) (get_eval evals id) _ λ e _.
    Ensures-bind (All (λ r. P r.0)) (All (λ r. P r.0)) (evals_of evals ids) _
      (evals_of-All P evals ids h.1) λ rest k. (h.0, k)

split_pot-Returns :
    (evals : Evals) (dealer pot_index amount : ℕ) (ids : List ℕ) (payout : Payout)
    → All (λ id. has_eval evals id ≡ true) ids
    → All (λ id. is_in_hand payout.players id ≡ true) ids
    → Returns (split_pot evals dealer pot_index amount ids payout)
unfolding split_pot pot_winners
split_pot-Returns evals dealer pot_index amount ids payout has h =
    let (ranked, e) = evals_of-Returns evals ids has in
    let alive =
      Ensures-ok _ (evals_of evals ids)
        (evals_of-All (λ id. is_in_hand payout.players id ≡ true) evals ids h) e in
    let winning : All (λ id. is_in_hand payout.players id ≡ true) (pot_winners ranked) =
      tied_with_best-All _ _ (sort_by-All _ _ ranked alive) in
    let (seats, f) = seats_of-Returns payout.players (pot_winners ranked) winning in
    let (r, g) =
      pay_winners-Returns pot_index (amount / length (pot_winners ranked))
        (find_by (λ s. includes s seats) (clockwise_seats payout.players dealer))
        (amount - (amount / length (pot_winners ranked)) * length (pot_winners ranked))
        (pot_winners ranked) payout winning in
    (r, rw (split_pot, e, f, g))

pay_eligible-Returns :
    (evals : Evals) (dealer pot_index amount : ℕ) (ids : List ℕ) (payout : Payout)
    → All (λ id. has_eval evals id ≡ true) ids
    → All (λ id. is_in_hand payout.players id ≡ true) ids
    → Returns (pay_eligible evals dealer pot_index amount ids payout)
unfolding pay_eligible
pay_eligible-Returns evals dealer pot_index amount [] payout has h = (payout, refl)
pay_eligible-Returns evals dealer pot_index amount (id ∷ []) payout has h =
    pay-Returns pot_index id amount payout h.0
pay_eligible-Returns evals dealer pot_index amount (id ∷ next ∷ ids) payout has h =
    split_pot-Returns evals dealer pot_index amount (id ∷ next ∷ ids) payout has h

-- Everybody in the hand has been evaluated.
abbrev pub AllEvaluated : Evals → List PlayerState → Type 0
AllEvaluated evals players =
    (id : ℕ)
    → is_in_hand players id ≡ true
    → any (λ (r : ℕ × HandEvaluation). r.0 == id) evals ≡ true

filter_by-All : (f : ℕ → Bool) (ids : List ℕ) → All (λ id. f id ≡ true) (filter_by f ids)
filter_by-All f [] = tt
filter_by-All f (id ∷ ids) = elim (Bool-cases (f id)) [
  | inl t ↦ rw t (t, filter_by-All f ids)
  | inr t ↦ rw t (filter_by-All f ids)
]

pay_pot-Returns :
    (evals : Evals) (dealer pot_index : ℕ) (q : Pot) (payout : Payout)
    → AllEvaluated evals payout.players
    → Returns (pay_pot evals dealer pot_index q payout)
unfolding pay_pot
pay_pot-Returns evals dealer pot_index q payout all = elim (Bool-cases (q.amount == 0)) [
  | inl t ↦ (payout, rw t)
  | inr t ↦
      rw (pay_pot, t)
        (let alive = filter_by-All (is_in_hand payout.players) q.eligible in
          pay_eligible-Returns evals dealer pot_index q.amount
            (filter_by (is_in_hand payout.players) q.eligible) payout (All-map _ _ all _ alive)
            alive)
]

-- The loop over the pots returns, if everybody in the hand has been evaluated and each pot can be
-- won.
pub pay_pots-Returns :
    (evals : Evals) (dealer pot_index : ℕ) (pots : List Pot) (payout : Payout)
    → AllEvaluated evals payout.players
    → All (Claimed payout.players) pots
    → (r : Payout) × (pay_pots evals dealer pot_index pots payout ≡ ok r)
unfolding pay_pots
pay_pots-Returns evals dealer pot_index [] payout all h = (payout, refl)
pay_pots-Returns evals dealer pot_index (q ∷ qs) payout all h =
    let (r, e) = pay_pot-Returns evals dealer pot_index q payout all in
    let paid =
      Ensures-ok (Paid payout q.amount) _ (pay_pot-Paid evals dealer pot_index q payout h.0) e in
    let (t, f) =
      pay_pots-Returns evals dealer (pot_index + 1) qs r
        (λ id a. all id (sym (paid.in_hand id) ∙ a))
        (All-map _ _ (λ p c. any-cong _ _ p.eligible (λ id. sym (paid.in_hand id)) c) qs h.1) in
    (t, rw (pay_pots, e, f))

evaluated-AllEvaluated :
    (evals : Evals) (players : List PlayerState)
    → All (λ p. has_eval evals p.id ≡ true) (non_folded players)
    → AllEvaluated evals players
evaluated-AllEvaluated evals [] h id a = cc
evaluated-AllEvaluated evals (p ∷ ps) h id a = elim (Bool-cases (p.id == id)) [
  | inl same ↦ elim (Bool-cases p.has_folded) [
    | inl folded ↦ cc (rw (is_in_hand, same, folded) at a)
    | inr playing ↦
        subst (λ k. has_eval evals k ≡ true) ((==_iff p.id id).0 same) (rw playing at h).0
  ]
  | inr other ↦
      evaluated-AllEvaluated evals ps (later (Bool-cases p.has_folded)) id
        (rw (is_in_hand, other) at a)
]
  where
    later :
        (p.has_folded ≡ true) ⊎ (p.has_folded ≡ false)
        → All (λ q. has_eval evals q.id ≡ true) (non_folded ps)
    later (inl folded) = rw folded at h
    later (inr playing) = (rw playing at h).1

-- The showdown returns on a table whose side pots can be won, if everybody in the hand has five
-- cards to choose from.
pub show_down-Returns :
    (s : GameState) (events : List GameEvent)
    → All (λ p. 5 ≤ length (p.hole_cards ++ s.community_cards)) (non_folded s.players)
    → All (Claimed s.players) (calculate_side_pots s.players)
    → (r : GameState × List GameEvent) × (show_down s events ≡ ok r)
unfolding show_down
show_down-Returns s events cards h =
    let (evals, e, _, all) =
      evaluate_players-Returns s.community_cards (non_folded s.players) [] cards in
    let (shown, f) = shown_hands-Returns evals (non_folded s.players) all in
    let start : Payout = record { players = s.players; all_winners = []; distributions = [] } in
    let (paid, g) =
      pay_pots-Returns evals s.dealer_seat_index 0 (calculate_side_pots s.players) start
        (evaluated-AllEvaluated evals s.players all) h in
    (close_hand s shown paid events, rw (show_down, e, f, g))
