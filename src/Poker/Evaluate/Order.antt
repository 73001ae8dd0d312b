-- ===== src/Poker/Evaluate/Order.antt =====
-- packages/poker-engine/src/evaluate.ts: `compareHands` as an order.
use agent_poker.Base.{ℕ, ◌≡◌, refl, List, [], ◌∷◌, arith}
use agent_poker.Base.Int.{pos, neg_part, pos_part, ◌≤ℤ◌}
use agent_poker.Poker.Types.{HandEvaluation}
use agent_poker.Poker.Evaluate.{compare_values, compare_hands}

compare_values-swap :
    (xs ys : List ℕ) → (pos_part (compare_values xs ys) ≡ neg_part (compare_values ys xs))
unfolding compare_values
compare_values-swap [] [] = refl
compare_values-swap (x ∷ xs) [] = ground (arith, compare_values-swap xs [])
compare_values-swap [] (y ∷ ys) = ground (arith, compare_values-swap [] ys)
compare_values-swap (x ∷ xs) (y ∷ ys) = ground (arith, compare_values-swap xs ys)

compare_values-trans :
    (xs ys zs : List ℕ)
    → compare_values xs ys ≤ℤ pos 0
    → compare_values ys zs ≤ℤ pos 0
    → compare_values xs zs ≤ℤ pos 0
unfolding compare_values
compare_values-trans [] [] [] p q = omega arith
compare_values-trans [] [] (z ∷ zs) p q = q
compare_values-trans [] (y ∷ ys) [] p q = omega arith
compare_values-trans [] (y ∷ ys) (z ∷ zs) p q = ground (arith, compare_values-trans [] ys zs)
compare_values-trans (x ∷ xs) [] [] p q = p
compare_values-trans (x ∷ xs) [] (z ∷ zs) p q = ground (arith, compare_values-trans xs [] zs)
compare_values-trans (x ∷ xs) (y ∷ ys) [] p q = ground (arith, compare_values-trans xs ys [])
compare_values-trans (x ∷ xs) (y ∷ ys) (z ∷ zs) p q = ground (arith, compare_values-trans xs ys zs)

-- A hand beats another by as much as the other is beaten by it.
pub compare_hands-swap :
    (a b : HandEvaluation) → pos_part (compare_hands a b) ≡ neg_part (compare_hands b a)
unfolding compare_hands
compare_hands-swap a b = ground (arith, compare_values-swap a.values b.values)

-- If a does not beat b and b does not beat c, then a does not beat c.
pub compare_hands-trans :
    (a b c : HandEvaluation)
    → compare_hands a b ≤ℤ pos 0
    → compare_hands b c ≤ℤ pos 0
    → compare_hands a c ≤ℤ pos 0
unfolding compare_hands
compare_hands-trans a b c p q = ground (arith, compare_values-trans a.values b.values c.values)

compare_values_self : (xs : List ℕ) → compare_values xs xs ≡ pos 0
unfolding compare_values
compare_values_self [] = refl
compare_values_self (x ∷ xs) = ground (arith, compare_values_self xs)

pub compare_hands_self : (a : HandEvaluation) → compare_hands a a ≡ pos 0
unfolding compare_hands
compare_hands_self a = ground (arith, compare_values_self a.values)
