-- ===== src/Poker/Positions.antt =====
-- packages/poker-engine/src/positions.ts: seats in clockwise order. `none` stands for -1, and the
-- sets of folded and all-in seats are lists.
pub mod Rotation
use agent_poker.Base.{
  ℕ, ◌+◌, ◌-◌, ◌%◌, List, [], ◌∷◌, map, length, get_or, Option, none, some, ok, err, or_throw,
  ◌>>=◌, index_of, includes, range_from, sort, Bool, not, ◌&&◌, ◌||◌, ltb, if◌then◌else◌, ◌==◌,
  find_by,
}
use agent_poker.Poker.Types.{Outcome, dealer_not_seated, bad_player_count}

-- The seats at offsets `start`, …, `start + count - 1` clockwise from position `pos`.
abbrev pub clockwise : List ℕ → ℕ → ℕ → ℕ → List ℕ
clockwise sorted pos start count =
    map (λ i. get_or sorted ((pos + i) % length sorted) 0) (range_from start count)

abbrev pub is_free : List ℕ → List ℕ → ℕ → Bool
is_free folded all_in seat = not (includes seat folded) && not (includes seat all_in)

unfoldable pub sorted_seats_from : List ℕ → ℕ → Outcome (List ℕ)
sorted_seats_from seats dealer =
    or_throw (index_of dealer (sort seats)) dealer_not_seated >>= λ pos.
    ok (clockwise (sort seats) pos 0 (length seats))

pub data Position : Type 0 where
  btn sb bb utg hj co : Position

abbrev position_order : ℕ → List Position
position_order n =
    if n == 2
    then btn ∷ bb ∷ []
    else if n == 3
    then btn ∷ sb ∷ bb ∷ []
    else if n == 4
    then btn ∷ sb ∷ bb ∷ utg ∷ []
    else if n == 5
    then btn ∷ sb ∷ bb ∷ utg ∷ co ∷ []
    else btn ∷ sb ∷ bb ∷ utg ∷ hj ∷ co ∷ []

abbrev zip_positions : List ℕ → List Position → List (ℕ × Position)
zip_positions [] ps = []
zip_positions (s ∷ ss) [] = []
zip_positions (s ∷ ss) (p ∷ ps) = (s, p) ∷ zip_positions ss ps

unfoldable pub assign_positions : List ℕ → ℕ → Outcome (List (ℕ × Position))
unfolding sorted_seats_from
assign_positions seats dealer =
    if ltb (length seats) 2 || ltb 6 (length seats)
    then err bad_player_count
    else sorted_seats_from seats dealer >>= λ rotated.
        ok (zip_positions rotated (position_order (length seats)))

unfoldable pub get_first_to_act_preflop : List ℕ → ℕ → Outcome ℕ
unfolding sorted_seats_from
get_first_to_act_preflop seats dealer = sorted_seats_from seats dealer >>= λ sorted.
    ok (if length seats == 2 then get_or sorted 0 0 else get_or sorted (3 % length seats) 0)

unfoldable pub get_first_to_act_postflop : List ℕ → ℕ → List ℕ → List ℕ → Outcome (Option ℕ)
unfolding sorted_seats_from
get_first_to_act_postflop seats dealer folded all_in = sorted_seats_from seats dealer >>= λ sorted.
    ok (find_by (is_free folded all_in) (clockwise sorted 0 1 (length sorted)))

unfoldable pub get_next_active_seat : List ℕ → ℕ → List ℕ → List ℕ → Option ℕ
get_next_active_seat seats current folded all_in = elim (index_of current (sort seats)) [
  | none ↦ none
  | some pos ↦
      find_by (is_free folded all_in) (clockwise (sort seats) pos 1 (length (sort seats) - 1))
]

unfoldable pub advance_dealer : List ℕ → ℕ → ℕ
advance_dealer seats current = elim (index_of current (sort seats)) [
  | none ↦ get_or (sort seats) 0 0
  | some pos ↦ get_or (sort seats) ((pos + 1) % length (sort seats)) 0
]

pub record Blinds : Type 0 where
  pub sb_seat : ℕ
  pub bb_seat : ℕ

unfoldable pub get_blind_seats : List ℕ → ℕ → Outcome Blinds
unfolding sorted_seats_from
get_blind_seats seats dealer = sorted_seats_from seats dealer >>= λ sorted. ok (
    if length sorted == 2
    then record { sb_seat = get_or sorted 0 0; bb_seat = get_or sorted 1 0 }
    else record { sb_seat = get_or sorted 1 0; bb_seat = get_or sorted 2 0 })
