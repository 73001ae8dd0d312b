-- ===== src/Poker/Deck/Shuffle.antt =====
-- packages/poker-engine/src/deck.ts: the cards of a shuffled deck.
use agent_poker.Base.{
  ℕ, zero, suc, ◌+◌, ◌-◌, ◌*◌, ◌/◌, ◌≤◌, ◌<◌, ◌≡◌, refl, subst, ap, ◌∙◌, List, [], ◌∷◌, length,
  get_or, set, sum_by, arith,
}
use native.Mathlib.Nat.{div-lt_iff_lt-mul, mul-lt-mul_of_pos_right, mul_comm, mod-lt}
use agent_poker.Poker.Types.{Card}
use agent_poker.Poker.Deck.{no_card, rng_range, swap_at, shuffle_from, shuffle_deck, seeded_rng}

module _ {ℓ} {A : Type ℓ} where
  length-set : (xs : List A) (i : ℕ) (v : A) → length (set xs i v) ≡ length xs
  length-set [] i v = refl
  length-set (x ∷ xs) zero v = refl
  length-set (x ∷ xs) (suc i) v = ap suc (length-set xs i v)

  sum_by-set :
      (f : A → ℕ) (xs : List A) (i : ℕ) (v d : A)
      → i < length xs
      → sum_by f (set xs i v) + f (get_or xs i d) ≡ sum_by f xs + f v
  sum_by-set f [] i v d h = absurd (omega arith)
  sum_by-set f (x ∷ xs) zero v d h = omega arith
  sum_by-set f (x ∷ xs) (suc i) v d h = omega (arith, sum_by-set f xs i v d (omega arith))

  -- After the card at `j` is copied to `i`, `j` still holds it.
  get_or-set :
      (xs : List A) (i j : ℕ) (d : A) → get_or (set xs i (get_or xs j d)) j d ≡ get_or xs j d
  get_or-set [] i j d = refl
  get_or-set (x ∷ xs) zero zero d = refl
  get_or-set (x ∷ xs) zero (suc j) d = refl
  get_or-set (x ∷ xs) (suc i) zero d = refl
  get_or-set (x ∷ xs) (suc i) (suc j) d = get_or-set xs i j d

-- A draw is a number below 2^32.
abbrev pub IsRng : {S : Type 0} → (S → ℕ × S) → Type 0
IsRng {S} rng = (s : S) → (rng s).0 < rng_range

-- `Math.floor(rng() * n)` is below n.
draw-lt : (r n : ℕ) → r < rng_range → 0 < n → r * n / rng_range < n
draw-lt r n h k =
    (div-lt_iff_lt-mul {k = rng_range} {x = r * n} {y = n} (omega arith)).1
      (subst (λ m. r * n < m) (mul_comm rng_range n) (mul-lt-mul_of_pos_right h k))

module _ {S : Type 0} (rng : S → ℕ × S) where
  sum_by-swap_at :
      (f : Card → ℕ) (cards : List Card) (i j : ℕ)
      → i < length cards
      → j < length cards
      → sum_by f (swap_at rng cards i j) ≡ sum_by f cards
  unfolding swap_at
  sum_by-swap_at f cards i j hi hj =
      let copied = set cards i (get_or cards j no_card) in
      omega (
        arith,
        sum_by-set f cards i (get_or cards j no_card) no_card hi,
        sum_by-set f copied j (get_or cards i no_card) no_card
            (omega (arith, hj, length-set cards i (get_or cards j no_card))),
        ap f (get_or-set cards i j no_card),
      )

  length-swap_at : (cards : List Card) (i j : ℕ) → length (swap_at rng cards i j) ≡ length cards
  unfolding swap_at
  length-swap_at cards i j = length-set _ j _ ∙ length-set cards i _

  sum_by-shuffle_from :
      (f : Card → ℕ) (k : ℕ) (cards : List Card) (s : S)
      → IsRng rng
      → k ≤ length cards - 1
      → sum_by f (shuffle_from rng k cards s).0 ≡ sum_by f cards
  unfolding shuffle_from
  sum_by-shuffle_from f zero cards s h bound = refl
  sum_by-shuffle_from f (suc k) cards s h bound =
      let j : ℕ = (rng s).0 * (suc k + 1) / rng_range in
      let size = length-swap_at cards (suc k) j in
      sum_by-shuffle_from f k (swap_at rng cards (suc k) j) (rng s).1 h (omega (arith, size))
      ∙ sum_by-swap_at f cards (suc k) j (omega arith)
          (omega (arith, draw-lt (rng s).0 (suc k + 1) (h s) (omega arith)))

  -- If each draw lies in its range, a shuffle neither adds nor loses a card: every sum over the
  -- cards, such as the number of times a card occurs, stays as it is.
  pub sum_by-shuffle_deck :
      (f : Card → ℕ) (deck : List Card) (s : S)
      → IsRng rng
      → sum_by f (shuffle_deck rng deck s).0 ≡ sum_by f deck
  unfolding shuffle_deck
  sum_by-shuffle_deck f deck s h = sum_by-shuffle_from f (length deck - 1) deck s h (omega arith)

-- The seeded generator draws in range.
pub seeded_rng-IsRng : IsRng seeded_rng
unfolding seeded_rng
seeded_rng-IsRng state = mod-lt _ (omega arith)
