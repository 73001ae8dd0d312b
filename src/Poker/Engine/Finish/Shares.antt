-- ===== src/Poker/Engine/Finish/Shares.antt =====
-- packages/poker-engine/src/engine.ts: the shares of one pot.
use agent_poker.Base.{
  ℕ, suc, ◌+◌, ◌*◌, ◌≡◌, refl, sym, ◌∙◌, subst, true, false, ◌&&◌, List, [], ◌∷◌, length, find_by,
  update_by, includes, Option, some, ok, Ensures, Ensures-bind, Ensures-mono, Ensures-then, ok_inj,
  >>=-eq-ok, arith, Bool-cases, Option-cases, inl, inr, ltb, ◌==◌,
}
use agent_poker.Base.Laws.{sum_by-update}
use agent_poker.Poker.Types.{PlayerState}
use agent_poker.Poker.Engine.State.{has_id, chip_sum}
use agent_poker.Poker.Engine.Finish.{
  Payout, add_chips, pay, seat_of, seats_of, pay_winners, is_in_hand,
}

-- A payment of `amount`: the chips grow by it, and the rest of the players stays.
pub record Paid (before : Payout) (amount : ℕ) (after : Payout) : Type 0 where
  pub chips : chip_sum after.players ≡ chip_sum before.players + amount
  pub seats : (id : ℕ) → seat_of after.players id ≡ seat_of before.players id
  pub in_hand : (id : ℕ) → is_in_hand after.players id ≡ is_in_hand before.players id

pub Paid-refl : (p : Payout) → Paid p 0 p
Paid-refl p = record { chips = omega arith; seats = λ id. refl; in_hand = λ id. refl }

pub Paid-trans : {p q r : Payout} {a b : ℕ} → Paid p a q → Paid q b r → Paid p (a + b) r
Paid-trans h k = record {
  chips = omega (arith, h.chips, k.chips);
  seats = λ id. k.seats id ∙ h.seats id;
  in_hand = λ id. k.in_hand id ∙ h.in_hand id;
}

pub Paid-cast : {p q : Payout} {a b : ℕ} → Paid p a q → a ≡ b → Paid p b q
Paid-cast {p} {q} h e = subst (λ n. Paid p n q) e h

seat_of-update :
    (id amount who : ℕ) (xs : List PlayerState)
    → seat_of (update_by (has_id id) (add_chips amount) xs) who ≡ seat_of xs who
seat_of-update id amount who [] = refl
seat_of-update id amount who (x ∷ xs) = ground (arith, seat_of-update id amount who xs)

is_in_hand-update :
    (id amount who : ℕ) (xs : List PlayerState)
    → is_in_hand (update_by (has_id id) (add_chips amount) xs) who ≡ is_in_hand xs who
is_in_hand-update id amount who [] = refl
is_in_hand-update id amount who (x ∷ xs) = ground (arith, is_in_hand-update id amount who xs)

pub pay-Paid :
    (pot_index id amount : ℕ) (p : Payout) → Ensures (Paid p amount) (pay pot_index id amount p)
unfolding pay
pay-Paid pot_index id amount p = elim (Option-cases (find_by (has_id id) p.players)) [
  | inl e ↦ rw (e, pay) tt
  | inr (x, e) ↦
      rw (e, pay)
        (record {
          chips =
              omega
                (arith, sum_by-update (λ y. y.chips) (add_chips amount) (has_id id) p.players e);
          seats = λ who. seat_of-update id amount who p.players;
          in_hand = λ who. is_in_hand-update id amount who p.players;
        })
]

-- With nothing left over, each winner gets the share.
pay_winners-even :
    (pot_index share : ℕ) (earliest : Option ℕ) (ids : List ℕ) (p : Payout)
    → Ensures (Paid p (share * length ids)) (pay_winners pot_index share earliest 0 ids p)
unfolding pay_winners seats_of
pay_winners-even pot_index share earliest [] p = Paid-cast (Paid-refl p) (omega arith)
pay_winners-even pot_index share earliest (id ∷ ids) p =
    Ensures-then (Paid p (share * suc (length ids))) (seat_of p.players id) _ λ seat _.
      Ensures-bind (Paid p (share + 0)) _ (pay pot_index id (share + 0) p) _
        (pay-Paid pot_index id (share + 0) p)
        λ q h.
          Ensures-mono (Paid q (share * length ids)) _ _
            (pay_winners-even pot_index share earliest ids q)
            λ r k. Paid-cast (Paid-trans h k) (omega arith)

seats_of-cong :
    (xs ys : List PlayerState) (ids : List ℕ)
    → ((id : ℕ) → seat_of xs id ≡ seat_of ys id)
    → seats_of xs ids ≡ seats_of ys ids
unfolding seats_of
seats_of-cong xs ys [] h = refl
seats_of-cong xs ys (id ∷ ids) h = rw (h id, seats_of-cong xs ys ids h)

-- The seat of the first winner, and those of the others.
pub seats_of-cons :
    (xs : List PlayerState) (id : ℕ) (ids : List ℕ) {seats : List ℕ} {seat : ℕ}
    → seat_of xs id ≡ ok seat
    → seats_of xs (id ∷ ids) ≡ ok seats
    → (rest : List ℕ) × (seats_of xs ids ≡ ok rest) × (seats ≡ seat ∷ rest)
unfolding seats_of
seats_of-cons xs id ids {seats} {seat} e h =
    let (rest, later, d) =
      >>=-eq-ok (seats_of xs ids) (λ r. ok (seat ∷ r)) (rw (seats_of, e) at h) in
    (rest, later, sym (ok_inj d))

-- If the earliest seat is that of a winner, the winners get their shares and the remainder.
pub pay_winners-all :
    (pot_index share s remainder : ℕ) (ids seats : List ℕ) (p : Payout)
    → seats_of p.players ids ≡ ok seats
    → includes s seats ≡ true
    → Ensures
        (Paid p (share * length ids + remainder))
        (pay_winners pot_index share (some s) remainder ids p)
unfolding pay_winners seats_of
pay_winners-all pot_index share s remainder [] seats p e i =
    cc (subst (λ xs. includes s xs ≡ true) (sym (ok_inj e)) i)
pay_winners-all pot_index share s remainder (id ∷ ids) seats p e i =
    Ensures-then (Paid p (share * suc (length ids) + remainder)) (seat_of p.players id) _ λ seat at.
      let (rest, later, split) = seats_of-cons p.players id ids at e in
      elim (Bool-cases (ltb 0 remainder && (seat == s))) [
        | inl hit ↦ rw hit (
            Ensures-bind (Paid p (share + remainder)) _ (pay pot_index id (share + remainder) p) _
              (pay-Paid pot_index id (share + remainder) p)
              λ q h.
                Ensures-mono (Paid q (share * length ids)) _ _
                  (pay_winners-even pot_index share (some s) ids q)
                  λ r k. Paid-cast (Paid-trans h k) (omega arith))
        | inr miss ↦ rw miss (
            Ensures-bind (Paid p (share + 0)) _ (pay pot_index id (share + 0) p) _
              (pay-Paid pot_index id (share + 0) p)
              λ q h. elim (Bool-cases (ltb 0 remainder)) [
                | inl more ↦
                    let missed : (seat == s) ≡ false = ground arith in
                    let there : includes s rest ≡ true = ground arith in
                    Ensures-mono (Paid q (share * length ids + remainder)) _ _
                      (pay_winners-all pot_index share s remainder ids rest q
                        (seats_of-cong q.players p.players ids h.seats ∙ later) there)
                      λ r k. Paid-cast (Paid-trans h k) (omega arith)
                | inr done ↦
                    let nothing : remainder ≡ 0 = ground arith in
                    rw nothing (
                      Ensures-mono (Paid q (share * length ids)) _ _
                        (pay_winners-even pot_index share (some s) ids q)
                        λ r k. Paid-cast (Paid-trans h k) (omega arith))
              ])
      ]
