-- ===== src/Poker/Engine/State.antt =====
-- packages/poker-engine/src/engine.ts: the helpers that read the state.
use agent_poker.Base.{
  ℕ, max, List, [], ◌∷◌, map, filter_by, find_by, sum_by, Option, or_throw, Bool, not, ◌==◌,
}
use agent_poker.Poker.Types.{GameState, PlayerState, Pot, Outcome, invalid_action}

abbrev pub at_seat : ℕ → PlayerState → Bool
at_seat seat p = p.seat_index == seat

abbrev pub has_id : ℕ → PlayerState → Bool
has_id id p = p.id == id

abbrev pub get_player_by_seat : GameState → ℕ → Option PlayerState
get_player_by_seat s seat = find_by (at_seat seat) s.players

abbrev pub get_active_player : GameState → Outcome PlayerState
get_active_player s = or_throw (get_player_by_seat s s.active_player_seat_index) invalid_action

abbrev pub active_seat_indices : GameState → List ℕ
active_seat_indices s = map (λ p. p.seat_index) s.players

abbrev pub folded_seats : GameState → List ℕ
folded_seats s = map (λ p. p.seat_index) (filter_by (λ p. p.has_folded) s.players)

abbrev pub all_in_seats : GameState → List ℕ
all_in_seats s = map (λ p. p.seat_index) (filter_by (λ p. p.is_all_in) s.players)

abbrev pub non_folded : List PlayerState → List PlayerState
non_folded players = filter_by (λ p. not p.has_folded) players

abbrev pub non_folded_players : GameState → List PlayerState
non_folded_players s = non_folded s.players

abbrev pub max_bet : List PlayerState → ℕ
max_bet [] = 0
max_bet (p ∷ ps) = max p.current_bet (max_bet ps)

abbrev pub max_current_bet : GameState → ℕ
max_current_bet s = max_bet s.players

abbrev pub pot_sum : GameState → ℕ
pot_sum s = sum_by (λ (q : Pot). q.amount) s.pots

abbrev pub chip_sum : List PlayerState → ℕ
chip_sum players = sum_by (λ p. p.chips) players
