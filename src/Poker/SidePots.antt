-- ===== src/Poker/SidePots.antt =====
-- packages/poker-engine/src/side-pots.ts: the pots of players who are all-in for different totals.
pub mod Conserve
use agent_poker.Base.{
  ℕ, ◌+◌, ◌-◌, min, List, [], ◌∷◌, ◌++◌, map, filter_by, sum_by, includes, sort, Bool, not, ◌&&◌,
  leb, ltb, ◌==◌, if◌then◌else◌,
}
use agent_poker.Poker.Types.{PlayerState, Pot}

-- `filter((v, i, arr) => arr.indexOf(v) === i)`: the first occurrences, given those kept so far.
abbrev pub first_occurrences : List ℕ → List ℕ → List ℕ
first_occurrences seen [] = []
first_occurrences seen (v ∷ vs) =
    let rest = first_occurrences (v ∷ seen) vs in if includes v seen then rest else v ∷ rest

unfoldable pub all_in_levels : List PlayerState → List ℕ
unfolding sort
all_in_levels players =
    sort (
      first_occurrences []
        (map (λ p. p.total_bet_this_hand) (filter_by (λ p. p.is_all_in) players)))

-- What one player put in between two levels.
abbrev pub contribution : ℕ → ℕ → PlayerState → ℕ
contribution previous level p = min p.total_bet_this_hand level - min p.total_bet_this_hand previous

-- `if (test) eligible.push(id)`
unfoldable pub push_if : Bool → ℕ → List ℕ → List ℕ
push_if test id ids = if test then ids ++ id ∷ [] else ids

-- One player's part in the list `eligible` of a level.
unfoldable pub eligible_step : ℕ → PlayerState → List ℕ → List ℕ
eligible_step level p ids =
    let first = push_if (not p.has_folded && leb level p.total_bet_this_hand) p.id ids in
    push_if
      (not p.has_folded
        && p.is_all_in
        && (p.total_bet_this_hand == level)
        && not (includes p.id first))
      p.id first

unfoldable pub add_eligible : ℕ → List PlayerState → List ℕ → List ℕ
unfolding eligible_step
add_eligible level [] ids = ids
add_eligible level (p ∷ ps) ids = add_eligible level ps (eligible_step level p ids)

-- The loop over the levels: the pots that it pushes, from the level before.
unfoldable pub level_pots : List PlayerState → ℕ → List ℕ → List Pot
unfolding add_eligible
level_pots players previous [] = []
level_pots players previous (level ∷ levels) =
    let skip = level_pots players previous levels in
    let rest = level_pots players level levels in
    let amount : ℕ = sum_by (contribution previous level) players in
    if leb level previous
    then skip
    else if ltb 0 amount
    then record { amount = amount; eligible = add_eligible level players [] } ∷ rest
    else rest

-- `allInLevels[allInLevels.length - 1]`
abbrev pub last_level : ℕ → List ℕ → ℕ
last_level level [] = level
last_level level (l ∷ ls) = last_level l ls

-- `pots[pots.length - 1]!.amount += extra`, if there is a pot.
abbrev pub add_to_last : List Pot → ℕ → List Pot
add_to_last [] extra = []
add_to_last (p ∷ []) extra = record p { amount = p.amount + extra } ∷ []
add_to_last (p ∷ q ∷ ps) extra = p ∷ add_to_last (q ∷ ps) extra

-- A pot for the players above the highest level, or, if they have all folded, the last pot grows.
unfoldable pub push_rest : List Pot → ℕ → List ℕ → List Pot
push_rest pots amount [] = add_to_last pots amount
push_rest pots amount (e ∷ es) = pots ++ record { amount = amount; eligible = e ∷ es } ∷ []

abbrev pub eligible_above : ℕ → List PlayerState → List ℕ
eligible_above top players =
    map (λ p. p.id) (filter_by (λ p. not p.has_folded && ltb top p.total_bet_this_hand) players)

-- What is left above the highest level.
unfoldable pub close_pots : List PlayerState → ℕ → List Pot → List Pot
unfolding push_rest
close_pots players top pots =
    let amount : ℕ = sum_by (λ p. p.total_bet_this_hand - top) players in
    if ltb 0 amount then push_rest pots amount (eligible_above top players) else pots

abbrev pub single_pot : List PlayerState → Pot
single_pot players = record {
  amount = sum_by (λ p. p.total_bet_this_hand) players;
  eligible = map (λ p. p.id) (filter_by (λ p. not p.has_folded) players);
}

unfoldable pub side_pots_of : List PlayerState → List ℕ → List Pot
unfolding level_pots close_pots
side_pots_of players [] = single_pot players ∷ []
side_pots_of players (level ∷ levels) =
    close_pots players (last_level level levels) (level_pots players 0 (level ∷ levels))

unfoldable pub calculate_side_pots : List PlayerState → List Pot
unfolding side_pots_of all_in_levels
calculate_side_pots players = side_pots_of players (all_in_levels players)
