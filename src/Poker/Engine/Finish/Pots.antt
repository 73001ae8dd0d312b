-- ===== src/Poker/Engine/Finish/Pots.antt =====
-- packages/poker-engine/src/engine.ts: the loop over the side pots.
use agent_poker.Base.{
  ℕ, suc, ◌+◌, ◌-◌, ◌*◌, ◌/◌, ◌≡◌, refl, sym, ap, ◌∙◌, subst, Bool, true, List, [], ◌∷◌, map,
  length, filter_by, find_by, any, All, sum_by, includes, some, ok, Ensures, Ensures-bind,
  Ensures-mono, Ensures-then, >>=-eq-ok, ok_inj, or_throw, or_throw-ok, arith, Bool-cases,
  Option-cases, inl, inr, ◌==◌, sort, length-sort_by, includes-sort, index_of, ◌≢◌,
}
use agent_poker.Base.Laws.{includes-found, find_by-any, any-includes, index_of-lt, All-map}
use agent_poker.Poker.Types.{PlayerState, Pot, HandEvaluation, type_error}
use agent_poker.Poker.Positions.Rotation.{clockwise-full, clockwise-start}
use agent_poker.Poker.Evaluate.Order.{compare_hands_self}
use agent_poker.Poker.Engine.State.{has_id}
use agent_poker.Poker.Engine.Finish.{
  Evals, Payout, seat_of, seats_of, get_eval, clockwise_seats, evals_of, tied_with_best,
  pot_winners, split_pot, is_in_hand, pay_eligible, pay_pot, pay_pots,
}
use agent_poker.Poker.Engine.Finish.Shares.{
  Paid, Paid-refl, Paid-trans, Paid-cast, pay-Paid, pay_winners-all,
}
use native.Mathlib.Nat.{div-mul-le_self}

-- Somebody ties with the best hand: the best hand itself.
tied_with_best-cons :
    (r : ℕ × HandEvaluation) (rs : Evals)
    → (w : ℕ) × (ws : List ℕ) × (tied_with_best (r ∷ rs) ≡ w ∷ ws)
unfolding tied_with_best
tied_with_best-cons (id, best) rs = rw (compare_hands_self best) (id, _, refl)

pot_winners-cons :
    (r : ℕ × HandEvaluation) (rs : Evals)
    → (w : ℕ) × (ws : List ℕ) × (pot_winners (r ∷ rs) ≡ w ∷ ws)
unfolding pot_winners
pot_winners-cons r rs = go _ (length-sort_by _ (r ∷ rs))
  where
    go :
        (es : Evals)
        → length es ≡ suc (length rs)
        → (w : ℕ) × (ws : List ℕ) × (tied_with_best es ≡ w ∷ ws)
    go [] e = absurd (omega arith)
    go (x ∷ xs) e = tied_with_best-cons x xs

evals_of-cons :
    (evals : Evals) (id : ℕ) (ids : List ℕ) {ranked : Evals}
    → evals_of evals (id ∷ ids) ≡ ok ranked
    → (r : ℕ × HandEvaluation) × (rs : Evals) × (ranked ≡ r ∷ rs)
unfolding evals_of
evals_of-cons evals id ids {ranked} h =
    let (e, _, later) = >>=-eq-ok (get_eval evals id) _ h in
    let (rest, _, d) = >>=-eq-ok (evals_of evals ids) (λ rs. ok ((id, e) ∷ rs)) later in
    ((id, e), rest, sym (ok_inj d))

-- The walk from the dealer's left meets every player.
clockwise_seats-all :
    (players : List PlayerState) (dealer seat : ℕ)
    → includes seat (map (λ p. p.seat_index) players) ≡ true
    → includes seat (clockwise_seats players dealer) ≡ true
unfolding clockwise_seats
clockwise_seats-all players dealer seat h =
    let order = sort (map (λ (p : PlayerState). p.seat_index) players) in
    let here : includes seat order ≡ true = includes-sort seat _ ∙ h in
    elim (Option-cases (index_of dealer order)) [
      | inl e ↦ rw (clockwise_seats, e) (clockwise-start order seat here)
      | inr (pos, e) ↦
          rw (clockwise_seats, e)
            (clockwise-full order pos seat (index_of-lt dealer order e).0 here)
    ]

-- A winner's seat is found first on that walk.
earliest_found :
    (players : List PlayerState) (dealer : ℕ) (w : ℕ) (ws seats : List ℕ)
    → seats_of players (w ∷ ws) ≡ ok seats
    → (s : ℕ) × (find_by (λ t. includes t seats) (clockwise_seats players dealer) ≡ some s)
      × (includes s seats ≡ true)
unfolding seats_of
earliest_found players dealer w ws seats e =
    let (seat, at, later) = >>=-eq-ok (seat_of players w) _ e in
    let (rest, _, d) = >>=-eq-ok (seats_of players ws) (λ r. ok (seat ∷ r)) later in
    let (x, found, same) =
      >>=-eq-ok (or_throw (find_by (has_id w) players) type_error) (λ p. ok p.seat_index) at in
    let seated =
      includes-found (λ (p : PlayerState). p.seat_index) (has_id w) players
        (or_throw-ok _ type_error found) in
    let among : includes x.seat_index seats ≡ true =
      subst (λ xs. includes x.seat_index xs ≡ true) (ok_inj d) (ground (arith, ok_inj same)) in
    let somebody =
      any-includes (λ t. includes t seats) x.seat_index (clockwise_seats players dealer)
        (clockwise_seats-all players dealer x.seat_index seated) among in
    find_by-any _ _ somebody

-- The shares and the remainder of a split are the whole pot.
split_pot-Paid :
    (evals : Evals) (dealer pot_index amount id : ℕ) (ids : List ℕ) (p : Payout)
    → Ensures (Paid p amount) (split_pot evals dealer pot_index amount (id ∷ ids) p)
unfolding split_pot
split_pot-Paid evals dealer pot_index amount id ids p =
    Ensures-then (Paid p amount) (evals_of evals (id ∷ ids)) _ λ ranked e.
      Ensures-then (Paid p amount) (seats_of p.players (pot_winners ranked)) _ λ seats f.
        let (r, rs, g) = evals_of-cons evals id ids e in
        let (w, ws, won) = pot_winners-cons r rs in
        let winners : pot_winners ranked ≡ w ∷ ws = ap pot_winners g ∙ won in
        let (s, found, there) = earliest_found p.players dealer w ws seats (rw winners at f) in
        let count : ℕ = length (pot_winners ranked) in
        let share : ℕ = amount / count in
        rw found (
          Ensures-mono (Paid p (share * count + (amount - share * count))) (Paid p amount) _
            (pay_winners-all pot_index _ s _ (pot_winners ranked) seats p f there)
            λ q h. Paid-cast h (omega (arith, div-mul-le_self amount count)))

-- A pot that some player in the hand can win is paid in full.
pay_eligible-Paid :
    (evals : Evals) (dealer pot_index amount : ℕ) (ids : List ℕ) (p : Payout)
    → ids ≢ []
    → Ensures (Paid p amount) (pay_eligible evals dealer pot_index amount ids p)
unfolding pay_eligible
pay_eligible-Paid evals dealer pot_index amount [] p h = absurd (h refl)
pay_eligible-Paid evals dealer pot_index amount (id ∷ []) p h = pay-Paid pot_index id amount p
pay_eligible-Paid evals dealer pot_index amount (id ∷ next ∷ ids) p h =
    split_pot-Paid evals dealer pot_index amount id (next ∷ ids) p

filter_by-any : (f : ℕ → Bool) (ids : List ℕ) → any f ids ≡ true → filter_by f ids ≢ []
filter_by-any f [] h = cc
filter_by-any f (id ∷ ids) h = ground (arith, filter_by-any f ids)

-- Some player in the hand is eligible for the pot.
abbrev pub Claimed : List PlayerState → Pot → Type 0
Claimed players q = any (is_in_hand players) q.eligible ≡ true

pub pay_pot-Paid :
    (evals : Evals) (dealer pot_index : ℕ) (q : Pot) (p : Payout)
    → Claimed p.players q
    → Ensures (Paid p q.amount) (pay_pot evals dealer pot_index q p)
unfolding pay_pot
pay_pot-Paid evals dealer pot_index q p h = elim (Bool-cases (q.amount == 0)) [
  | inl zero_pot ↦ rw zero_pot (Paid-cast (Paid-refl p) (ground arith))
  | inr some_pot ↦
      rw some_pot
        (pay_eligible-Paid evals dealer pot_index q.amount _ p (filter_by-any _ q.eligible h))
]

pub any-cong :
    (f g : ℕ → Bool) (xs : List ℕ) → ((x : ℕ) → f x ≡ g x) → any f xs ≡ true → any g xs ≡ true
any-cong f g [] h e = e
any-cong f g (x ∷ xs) h e = ground (arith, h x, any-cong f g xs h)

-- If each pot has an eligible player who is still in the hand and the loop over the pots does not
-- throw, the stacks grow by all that is in the pots.
pub pay_pots-Paid :
    (evals : Evals) (dealer pot_index : ℕ) (pots : List Pot) (p : Payout)
    → All (Claimed p.players) pots
    → Ensures (Paid p (sum_by (λ q. q.amount) pots)) (pay_pots evals dealer pot_index pots p)
unfolding pay_pots
pay_pots-Paid evals dealer pot_index [] p h = Paid-refl p
pay_pots-Paid evals dealer pot_index (q ∷ qs) p h =
    Ensures-bind (Paid p q.amount) (Paid p (sum_by (λ r. r.amount) (q ∷ qs)))
      (pay_pot evals dealer pot_index q p) _ (pay_pot-Paid evals dealer pot_index q p h.0)
      λ r k.
        Ensures-mono (Paid r (sum_by (λ s. s.amount) qs)) _ _
          (pay_pots-Paid evals dealer (pot_index + 1) qs r
            (All-map _ _ (λ t. any-cong _ _ t.eligible (λ id. sym (k.in_hand id))) qs h.1))
          λ s m. Paid-trans k m
