-- ===== src/Poker/SidePots/Conserve.antt =====
-- packages/poker-engine/src/side-pots.ts: the total of the pots.
use agent_poker.Base.{
  ℕ, ◌+◌, ◌-◌, ◌≤◌, ◌<◌, min, ◌≡◌, refl, true, List, [], ◌∷◌, map, All, sum_by, sum_by-append,
  filter_by, arith, ltb, leb, Bool-cases, inl, inr,
}
use agent_poker.Base.Sort.{IsSorted, sort-IsSorted, All-sort}
use agent_poker.Poker.Types.{PlayerState, Pot}
use agent_poker.Poker.SidePots.{
  contribution, level_pots, last_level, add_to_last, push_rest, eligible_above, close_pots,
  side_pots_of, all_in_levels, calculate_side_pots, first_occurrences,
}

abbrev pub pot_total : List Pot → ℕ
pot_total pots = sum_by (λ q. q.amount) pots

abbrev pub bet_total : List PlayerState → ℕ
bet_total players = sum_by (λ p. p.total_bet_this_hand) players

abbrev capped : ℕ → List PlayerState → ℕ
capped level players = sum_by (λ p. min p.total_bet_this_hand level) players

capped-contribution :
    (previous level : ℕ) (players : List PlayerState)
    → previous ≤ level
    → sum_by (contribution previous level) players + capped previous players ≡ capped level players
capped-contribution previous level [] h = omega arith
capped-contribution previous level (p ∷ ps) h =
    omega (arith, capped-contribution previous level ps h)

capped-above :
    (top : ℕ) (players : List PlayerState)
    → sum_by (λ p. p.total_bet_this_hand - top) players + capped top players ≡ bet_total players
capped-above top [] = omega arith
capped-above top (p ∷ ps) = omega (arith, capped-above top ps)

capped-zero : (players : List PlayerState) → capped 0 players ≡ 0
capped-zero [] = refl
capped-zero (p ∷ ps) = omega (arith, capped-zero ps)

All-weaken : (a b : ℕ) (xs : List ℕ) → a ≤ b → All (λ y. b ≤ y) xs → All (λ y. a ≤ y) xs
All-weaken a b [] h s = tt
All-weaken a b (x ∷ xs) h s = (omega arith, All-weaken a b xs h s.1)

-- The pots of ascending levels hold what lies between the first and the last level.
level_pots-total :
    (players : List PlayerState) (previous : ℕ) (levels : List ℕ)
    → IsSorted levels
    → All (λ l. previous ≤ l) levels
    → pot_total (level_pots players previous levels) + capped previous players
      ≡ capped (last_level previous levels) players
unfolding level_pots
level_pots-total players previous [] s h = omega arith
level_pots-total players previous (level ∷ levels) s h = elim (Bool-cases (leb level previous)) [
  | inl le ↦
      let e : level ≡ previous = ground arith in
      rw (le, e) (level_pots-total players previous levels s.1 h.1)
  | inr gt ↦ ground (
    arith,
    capped-contribution previous level players,
    level_pots-total players level levels s.1 s.0,
  )
]

pot_total-add_to_last :
    (q : Pot) (qs : List Pot) (extra : ℕ)
    → pot_total (add_to_last (q ∷ qs) extra) ≡ pot_total (q ∷ qs) + extra
pot_total-add_to_last q [] extra = omega arith
pot_total-add_to_last q (r ∷ rs) extra = omega (arith, pot_total-add_to_last r rs extra)

pot_total-push_rest :
    (q : Pot) (qs : List Pot) (amount : ℕ) (eligible : List ℕ)
    → pot_total (push_rest (q ∷ qs) amount eligible) ≡ pot_total (q ∷ qs) + amount
unfolding push_rest
pot_total-push_rest q qs amount [] = pot_total-add_to_last q qs amount
pot_total-push_rest q qs amount (e ∷ es) = omega (
  arith,
  sum_by-append {0} (λ r. r.amount) qs (record { amount = amount; eligible = e ∷ es } ∷ []),
)

capped-none : (top : ℕ) (ps : List PlayerState) → 0 < top → capped top ps ≡ 0 → bet_total ps ≡ 0
capped-none top [] pos e = refl
capped-none top (p ∷ ps) pos e = omega (arith, capped-none top ps pos)

-- With a pot to add to, the rest above the highest level is not lost.
close_pots-total :
    (players : List PlayerState) (top : ℕ) (pots : List Pot)
    → pot_total pots ≡ capped top players
    → 0 < top
    → pot_total (close_pots players top pots) ≡ bet_total players
unfolding close_pots
close_pots-total players top [] h pos =
    ground (arith, capped-above top players, capped-none top players)
close_pots-total players top (q ∷ qs) h pos =
    let amount : ℕ = sum_by (λ p. p.total_bet_this_hand - top) players in
    let pushed = pot_total-push_rest q qs amount (eligible_above top players) in
    elim (Bool-cases (ltb 0 amount)) [
      | inl more ↦ rw more (omega (arith, capped-above top players, pushed))
      | inr done ↦
          let e : amount ≡ 0 = ground arith in rw done (omega (arith, e, capped-above top players))
    ]

-- The highest level is the total of an all-in player.
last_level_pos :
    (level : ℕ) (levels : List ℕ)
    → 0 < level
    → All (λ l. 0 < l) levels
    → 0 < last_level level levels
last_level_pos level [] h s = h
last_level_pos level (l ∷ ls) h s = last_level_pos l ls s.0 s.1

-- A player who is all-in has put something in.
abbrev pub AllInPaid : List PlayerState → Type 0
AllInPaid players = All (λ p. p.is_all_in ≡ true → 0 < p.total_bet_this_hand) players

module _ (G : ℕ → Type 0) where
  first_occurrences-All :
      (seen levels : List ℕ) → All G levels → All G (first_occurrences seen levels)
  first_occurrences-All seen [] h = tt
  first_occurrences-All seen (l ∷ ls) h = ground (arith, first_occurrences-All (l ∷ seen) ls h.1)

  totals-All :
      (players : List PlayerState)
      → All (λ p. p.is_all_in ≡ true → G p.total_bet_this_hand) players
      → All G (map (λ p. p.total_bet_this_hand) (filter_by (λ p. p.is_all_in) players))
  totals-All [] h = tt
  totals-All (p ∷ ps) h = elim (Bool-cases p.is_all_in) [
    | inl e ↦ rw e (h.0 e, totals-All ps h.1)
    | inr e ↦ rw e (totals-All ps h.1)
  ]

  -- What holds of the total of each all-in player holds of each level.
  pub all_in_levels-All :
      (players : List PlayerState)
      → All (λ p. p.is_all_in ≡ true → G p.total_bet_this_hand) players
      → All G (all_in_levels players)
  unfolding all_in_levels
  all_in_levels-All players h = All-sort _ _ (first_occurrences-All [] _ (totals-All players h))

zero_below : (levels : List ℕ) → All (λ l. 0 ≤ l) levels
zero_below [] = tt
zero_below (l ∷ ls) = (omega arith, zero_below ls)

side_pots_of-total :
    (players : List PlayerState) (levels : List ℕ)
    → IsSorted levels
    → All (λ l. 0 < l) levels
    → pot_total (side_pots_of players levels) ≡ bet_total players
unfolding side_pots_of
side_pots_of-total players [] s h = omega arith
side_pots_of-total players (level ∷ levels) s h =
    close_pots-total players _ (level_pots players 0 (level ∷ levels))
      (omega (
        arith,
        level_pots-total players 0 (level ∷ levels) s (zero_below (level ∷ levels)),
        capped-zero players,
      ))
      (last_level_pos level levels h.0 h.1)

-- The pots add up to what the players have put in during the hand, if every all-in player has put
-- something in.
pub calculate_side_pots-total :
    (players : List PlayerState)
    → AllInPaid players
    → pot_total (calculate_side_pots players) ≡ bet_total players
unfolding calculate_side_pots all_in_levels
calculate_side_pots-total players h =
    let totals =
      map (λ (p : PlayerState). p.total_bet_this_hand) (filter_by (λ p. p.is_all_in) players) in
    side_pots_of-total players (all_in_levels players) (sort-IsSorted (first_occurrences [] totals))
      (all_in_levels-All (λ l. 0 < l) players h)
