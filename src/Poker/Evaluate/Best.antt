-- ===== src/Poker/Evaluate/Best.antt =====
-- packages/poker-engine/src/evaluate.ts: `evaluateBestHand` and the choices of five cards.
use agent_poker.Base.{
  ℕ, zero, suc, ◌≤◌, ◌≡◌, refl, ◌∙◌, true, false, List, [], ◌∷◌, ◌++◌, map, length, All, some, ◌⊎◌,
  inl, inr, arith, Bool-cases,
}
use agent_poker.Base.Int.{ℤ, pos, negsuc, ◌≤ℤ◌, is_positive, pos_part, neg_part}
use agent_poker.Poker.Types.{Card, HandEvaluation}
use agent_poker.Poker.Evaluate.{
  evaluate5, compare_hands, choose, better_of, best_of, evaluate_best_hand,
}
use agent_poker.Poker.Evaluate.Order.{compare_hands-swap, compare_hands-trans, compare_hands_self}

-- The first hand does not beat the second.
abbrev pub AtMost : HandEvaluation → HandEvaluation → Type 0
AtMost a b = compare_hands a b ≤ℤ pos 0

-- The hand is the value of one of the choices.
abbrev pub IsAmong : HandEvaluation → List (List Card) → Type 0
IsAmong e [] = ⊥
IsAmong e (cards ∷ rest) = (e ≡ evaluate5 cards) ⊎ IsAmong e rest

-- The loop returns a hand that is no worse than the one that it starts with and than every choice.
record Beats (start : HandEvaluation) (choices : List (List Card)) (best : HandEvaluation)
    : Type 0 where
  from_start : AtMost start best
  from_all : All (λ cards. AtMost (evaluate5 cards) best) choices
  origin : (best ≡ start) ⊎ IsAmong best choices

positive-neg : (z : ℤ) → is_positive z ≡ true → neg_part z ≡ 0
positive-neg (pos n) h = refl
positive-neg (negsuc n) h = absurd (ground arith)

not_positive-pos : (z : ℤ) → is_positive z ≡ false → pos_part z ≡ 0
not_positive-pos (pos n) h = ground arith
not_positive-pos (negsuc n) h = refl

step :
    (start next : HandEvaluation)
    → (m : HandEvaluation) × (better_of (some start) next ≡ some m)
      × AtMost start m
      × AtMost next m
      × ((m ≡ start) ⊎ (m ≡ next))
unfolding better_of
step start next = elim (Bool-cases (is_positive (compare_hands next start))) [
  | inl more ↦ (
    next,
    rw more,
    omega (arith, compare_hands-swap start next, positive-neg (compare_hands next start) more),
    rw compare_hands_self (omega arith),
    inr refl,
  )
  | inr less ↦ (
    start,
    rw less,
    rw compare_hands_self (omega arith),
    omega (arith, not_positive-pos (compare_hands next start) less),
    inl refl,
  )
]

best_of-Beats :
    (choices : List (List Card)) (start : HandEvaluation)
    → (best : HandEvaluation) × (best_of (some start) choices ≡ some best)
      × Beats start choices best
unfolding best_of
best_of-Beats [] start = (
  start,
  refl,
  record { from_start = rw compare_hands_self (omega arith); from_all = tt; origin = inl refl },
)
best_of-Beats (cards ∷ rest) start =
    let (m, e, low, high, which) = step start (evaluate5 cards) in
    let (best, f, h) = best_of-Beats rest m in
    (
      best,
      rw e f,
      record {
        from_start = compare_hands-trans start m best low h.from_start;
        from_all = (compare_hands-trans (evaluate5 cards) m best high h.from_start, h.from_all);
        origin = elim h.origin [
          | inl s ↦ elim which [ inl w ↦ inl (s ∙ w) | inr w ↦ inr (inl (s ∙ w)) ]
          | inr i ↦ inr (inr i)
        ];
      },
    )

choose-cons :
    (k : ℕ) (cards : List Card)
    → k ≤ length cards
    → (first : List Card) × (rest : List (List Card)) × (choose k cards ≡ first ∷ rest)
unfolding choose
choose-cons zero cards h = ([], [], refl)
choose-cons (suc k) [] h = absurd (omega arith)
choose-cons (suc k) (c ∷ cards) h =
    let (first, rest, e) = choose-cons k cards (omega arith) in
    (c ∷ first, map (λ chosen. c ∷ chosen) rest ++ choose (suc k) cards, rw e)

-- Of at least five cards a best hand is returned; it is the value of one of the choices of five,
-- and no choice of five beats it.
pub evaluate_best_hand-best :
    (hole community : List Card)
    → 5 ≤ length (hole ++ community)
    → (best : HandEvaluation) × (evaluate_best_hand hole community ≡ some best)
      × IsAmong best (choose 5 (hole ++ community))
      × All (λ cards. AtMost (evaluate5 cards) best) (choose 5 (hole ++ community))
unfolding evaluate_best_hand better_of
evaluate_best_hand-best hole community h =
    let (first, rest, e) = choose-cons 5 (hole ++ community) h in
    let (best, f, b) = best_of-Beats rest (evaluate5 first) in
    rw e (best, f, elim b.origin [ inl s ↦ inl s | inr i ↦ inr i ], (b.from_start, b.from_all))
