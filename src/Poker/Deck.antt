-- ===== src/Poker/Deck.antt =====
-- packages/poker-engine/src/deck.ts: the deck, the shuffle, dealing and the seeded generator.
pub mod Shuffle
use agent_poker.Base.{
  ℕ, zero, suc, ◌+◌, ◌-◌, ◌*◌, ◌/◌, ◌%◌, ◌^◌, List, [], ◌∷◌, map, length, get_or, set, ok, err,
  ◌>>=◌, Option, some, none,
}
use agent_poker.Poker.Types.{Card, Outcome, deck_exhausted, suits, ranks, two, hearts}
use mathlib.Core.List.{flat_map}
use Prim.Native.Nat.{bit_or, bit_xor}

abbrev pub no_card : Card
no_card = record { rank = two; suit = hearts }

-- `for (const suit of SUITS) for (const rank of RANKS)`
unfoldable pub create_deck : List Card
create_deck = flat_map (λ s. map (λ r. record { rank = r; suit = s }) ranks) suits

-- `RngFn` returns a multiple of 2^-32 in [0, 1), so its result is the numerator: with a factor
-- of at most 52, `Math.floor(rng() * (i + 1))` is exact on doubles.
abbrev pub rng_range : ℕ
rng_range = 4294967296

module _ {S : Type 0} (rng : S → ℕ × S) where
  unfoldable pub swap_at : List Card → ℕ → ℕ → List Card
  swap_at cards i j = set (set cards i (get_or cards j no_card)) j (get_or cards i no_card)

  -- The body of the loop for i = k, k - 1, …, 1.
  unfoldable pub shuffle_from : ℕ → List Card → S → List Card × S
  unfolding swap_at
  shuffle_from zero cards s = (cards, s)
  shuffle_from (suc k) cards s =
      let (r, s') = rng s in
      let j : ℕ = r * (suc k + 1) / rng_range in shuffle_from k (swap_at cards (suc k) j) s'

  unfoldable pub shuffle_deck : List Card → S → List Card × S
  unfolding shuffle_from
  shuffle_deck deck s = shuffle_from (length deck - 1) deck s

-- `deck.pop()`: the last card and the rest.
unfoldable pub pop_card : List Card → Option (Card × List Card)
pop_card [] = none
pop_card (c ∷ []) = some (c, [])
pop_card (c ∷ d ∷ rest) = elim (pop_card (d ∷ rest)) [
  | none ↦ none
  | some (last, front) ↦ some (last, c ∷ front)
]

-- The cards dealt, and the deck that is left.
unfoldable pub deal_cards : List Card → ℕ → Outcome (List Card × List Card)
unfolding pop_card
deal_cards deck zero = ok ([], deck)
deal_cards deck (suc count) = elim (pop_card deck) [
  | none ↦ err deck_exhausted
  | some (card, rest) ↦ deal_cards rest count >>= λ r. ok (card ∷ r.0, r.1)
]

-- 32-bit words as bit patterns: `x >>> k`, `Math.imul`, and the sum that a bit operation truncates.
abbrev shift_right : ℕ → ℕ → ℕ
shift_right x k = x / 2 ^ k

abbrev imul : ℕ → ℕ → ℕ
imul a b = a * b % rng_range

abbrev add_word : ℕ → ℕ → ℕ
add_word a b = (a + b) % rng_range

-- `createSeededRng`: one draw (mulberry32), from the state `s`, to a numerator over 2^32.
unfoldable pub seeded_rng : ℕ → ℕ × ℕ
seeded_rng state =
    let s : ℕ = add_word state 0x6d2b79f5 in
    let t : ℕ = imul (bit_xor s (shift_right s 15)) (bit_or 1 s) in
    let u : ℕ = bit_xor (add_word t (imul (bit_xor t (shift_right t 7)) (bit_or 61 t))) t in
    (bit_xor u (shift_right u 14) % rng_range, s)
