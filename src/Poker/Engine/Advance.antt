-- ===== src/Poker/Engine/Advance.antt =====
-- packages/poker-engine/src/engine.ts: `advanceStreet` and the end of `applyAction`, and the chips
-- and the turn after them.
use agent_poker.Base.{
  ℕ, ◌+◌, ◌≤◌, ◌≡◌, refl, ap, ◌∙◌, subst, true, false, not, List, [], ◌∷◌, length, filter_by,
  Option, none, some, ok, ◌>>=◌, ◌==◌, Ensures, Ensures-bind, Ensures-mono, Ensures-then,
  Ensures-if, >>=-eq-ok, ok_inj, arith, inl, inr, ◌⊎◌, leb, find_by, All,
}
use agent_poker.Base.Laws.{find_by-All, sum_by-map_keep}
use agent_poker.Poker.Types.{
  GameState, PlayerState, GameEvent, Street, preflop, flop, turn, river, showdown,
}
use agent_poker.Poker.Positions.{is_free, clockwise, get_first_to_act_postflop, sorted_seats_from}
use agent_poker.Poker.Positions.Rotation.{get_next_active_seat-free}
use agent_poker.Poker.Engine.State.{
  non_folded, pot_sum, folded_seats, all_in_seats, active_seat_indices,
}
use agent_poker.Poker.Engine.Streets.{
  deal_board, first_turn, open_betting, start_street, enter_street, enter_next, reset_for_street,
  advance_street, get_next_street, all_players_acted_and_matched,
}
use agent_poker.Poker.Engine.Apply.{settle, continue_hand, next_turn}
use agent_poker.Poker.Engine.Invariant.{
  money, Sound, Harmless, Sound-map, length-non_folded-Harmless, free-Acts,
}
use agent_poker.Poker.Engine.Conserve.{
  Turn, Finishes, Goes, SameTable, finish_hand-Finishes, deal_board-SameTable, Sound-SameTable,
  deal_and_finish, run_out-Finishes,
}

-- What the betting needs of a table: it is in order, and two players are in the hand.
pub record Betting (s : GameState) : Type 0 where
  pub sound : Sound s.players s.pots
  pub goes_on : s.is_hand_complete ≡ false
  pub two : 2 ≤ length (non_folded s.players)

Goes-Finishes : (s : GameState) (r : Turn) → Finishes s r → Goes (money s) r
Goes-Finishes s r h = (h.0, inl h.1)

-- The turn goes to a seat that is free to act.
pass_turn :
    (s : GameState) (seat : ℕ) (events : List GameEvent)
    → Betting s
    → is_free (folded_seats s) (all_in_seats s) seat ≡ true
    → Goes (money s) (record s { active_player_seat_index = seat }, events)
pass_turn s seat events b free = (
  refl,
  inr (record {
    sound = b.sound;
    goes_on = b.goes_on;
    turn = free-Acts seat s.players free;
    two = b.two;
  }),
)

first_free :
    (seats : List ℕ) (dealer : ℕ) (folded all_in : List ℕ) {seat : ℕ}
    → get_first_to_act_postflop seats dealer folded all_in ≡ ok (some seat)
    → is_free folded all_in seat ≡ true
unfolding get_first_to_act_postflop
first_free seats dealer folded all_in {seat} e =
    let (sorted, _, found) =
      >>=-eq-ok (sorted_seats_from seats dealer)
        (λ sorted. ok (find_by (is_free folded all_in) (clockwise sorted 0 1 (length sorted)))) e in
    (find_by-All (λ _. Unit {0}) (is_free folded all_in) _ (all_unit _) (ok_inj found)).1
  where
    all_unit : (xs : List ℕ) → All (λ _. Unit {0}) xs
    all_unit [] = tt
    all_unit (x ∷ xs) = (tt, all_unit xs)

first_turn-Goes :
    (first : Option ℕ) (s : GameState) (events : List GameEvent)
    → Betting s
    → ((seat : ℕ) → first ≡ some seat → is_free (folded_seats s) (all_in_seats s) seat ≡ true)
    → Ensures (Goes (money s)) (first_turn first s events)
unfolding first_turn
first_turn-Goes none s events b free =
    Ensures-mono (Finishes s) (Goes (money s)) _ (deal_and_finish s events b.sound)
      λ r h. Goes-Finishes s r h
first_turn-Goes (some seat) s events b free = pass_turn s seat events b (free seat refl)

open_betting-Goes :
    (next : Street) (s : GameState) (events : List GameEvent)
    → Betting s
    → Ensures (Goes (money s)) (open_betting next s events)
unfolding open_betting
open_betting-Goes next s events b =
    Ensures-then (Goes (money s))
      (get_first_to_act_postflop (active_seat_indices s) s.dealer_seat_index (folded_seats s)
        (all_in_seats s))
      _
      λ first e. first_turn-Goes first s _ b λ seat same.
        first_free (active_seat_indices s) s.dealer_seat_index (folded_seats s) (all_in_seats s)
          (e ∙ ap ok same)

Betting-SameTable : (s : GameState) (r : Turn) → SameTable s r → Betting s → Betting r.0
Betting-SameTable s r h b = record {
  sound = Sound-SameTable h b.sound;
  goes_on = h.complete ∙ b.goes_on;
  two = rw h.players b.two;
}

money-SameTable : (s : GameState) (r : Turn) → SameTable s r → money r.0 ≡ money s
money-SameTable s r h = ground (arith, h.players, h.pots)

-- The cards of a street, and the betting.
deal_and_open :
    (count : ℕ) (next : Street) (s : GameState) (events : List GameEvent)
    → Betting s
    → Ensures
        (Goes (money s))
        (deal_board count (λ _. next) s events >>= λ r. open_betting next r.0 r.1)
deal_and_open count next s events b =
    Ensures-bind (SameTable s) (Goes (money s)) (deal_board count (λ _. next) s events) _
      (deal_board-SameTable count (λ _. next) s events)
      λ r h.
        subst (λ n. Ensures (Goes n) (open_betting next r.0 r.1)) (money-SameTable s r h)
          (open_betting-Goes next r.0 r.1 (Betting-SameTable s r h b))

start_street-Goes :
    (next : Street) (s : GameState) (events : List GameEvent)
    → Betting s
    → Ensures (Goes (money s)) (start_street next s events)
unfolding start_street
start_street-Goes preflop s events b = open_betting-Goes preflop s events b
start_street-Goes flop s events b = deal_and_open 3 flop s events b
start_street-Goes turn s events b = deal_and_open 1 turn s events b
start_street-Goes river s events b = deal_and_open 1 river s events b
start_street-Goes showdown s events b =
    Ensures-mono (Finishes s) (Goes (money s)) _ (finish_hand-Finishes s events b.sound)
      λ r h. Goes-Finishes s r h

reset_Harmless : Harmless reset_for_street
reset_Harmless = record {
  id = λ p. refl;
  chips = λ p. refl;
  total = λ p. refl;
  folded = λ p. refl;
  all_in = λ p. refl;
}

enter_street-Betting : (next : Street) (s : GameState) → Betting s → Betting (enter_street next s)
enter_street-Betting next s b = record {
  sound = Sound-map reset_Harmless b.sound;
  goes_on = b.goes_on;
  two = rw (length-non_folded-Harmless s.players reset_Harmless) b.two;
}

enter_street-money : (next : Street) (s : GameState) → money (enter_street next s) ≡ money s
enter_street-money next s =
    ap (λ n. n + pot_sum s)
      (sum_by-map_keep (λ p. p.chips) reset_for_street s.players reset_Harmless.chips)

enter_next-Goes :
    (next : Option Street) (s : GameState) (events : List GameEvent)
    → Betting s
    → Ensures (Goes (money s)) (enter_next next s events)
unfolding enter_next
enter_next-Goes none s events b =
    Ensures-mono (Finishes s) (Goes (money s)) _ (run_out-Finishes s events b.sound)
      λ r h. Goes-Finishes s r h
enter_next-Goes (some next) s events b =
    subst (λ n. Ensures (Goes n) (start_street next (enter_street next s) events))
      (enter_street-money next s)
      (start_street-Goes next (enter_street next s) events (enter_street-Betting next s b))

-- If the table is sound, the hand goes on with two players and the end of the street does not
-- throw, the chips of the table stay the same, and the hand is over or satisfies the invariant.
pub advance_street-Goes :
    (s : GameState) (events : List GameEvent)
    → Betting s
    → Ensures (Goes (money s)) (advance_street s events)
unfolding advance_street
advance_street-Goes s events b =
    Ensures-if (Goes (money s)) (length (non_folded s.players) == 1) _ _
      (λ alone. absurd (not_one (length (non_folded s.players)) b.two alone))
      λ _.
        Ensures-if (Goes (money s))
          (leb (length (filter_by (λ p. not p.is_all_in) (non_folded s.players))) 1) _ _
          (λ _.
            Ensures-mono (Finishes s) (Goes (money s)) _ (run_out-Finishes s events b.sound)
              λ r h. Goes-Finishes s r h)
          λ _. enter_next-Goes (get_next_street s.street) s events b
  where
    not_one : (n : ℕ) → 2 ≤ n → (n == 1) ≡ true → ⊥
    not_one n h e = ground arith

next_turn-Goes :
    (next : Option ℕ) (s : GameState) (events : List GameEvent)
    → Betting s
    → ((seat : ℕ) → next ≡ some seat → is_free (folded_seats s) (all_in_seats s) seat ≡ true)
    → Ensures (Goes (money s)) (next_turn next s events)
unfolding next_turn
next_turn-Goes none s events b free = advance_street-Goes s events b
next_turn-Goes (some seat) s events b free = pass_turn s seat events b (free seat refl)

continue_hand-Goes :
    (player : PlayerState) (s : GameState) (events : List GameEvent)
    → Betting s
    → Ensures (Goes (money s)) (continue_hand player s events)
unfolding continue_hand
continue_hand-Goes player s events b =
    Ensures-if (Goes (money s)) (all_players_acted_and_matched s) _ _
      (λ _. advance_street-Goes s events b)
      λ _. next_turn-Goes _ s events b λ seat e.
        (get_next_active_seat-free (active_seat_indices s) player.seat_index (folded_seats s)
          (all_in_seats s) e).1

-- The end of an action that leaves the hand complete, or a table in order.
pub settle-Goes :
    (player : PlayerState) (s : GameState) (events : List GameEvent)
    → (s.is_hand_complete ≡ true) ⊎ Betting s
    → Ensures (Goes (money s)) (settle player s events)
unfolding settle
settle-Goes player s events (inl over) =
    Ensures-if (Goes (money s)) s.is_hand_complete _ _ (λ h. (refl, inl h)) λ h. cc
settle-Goes player s events (inr b) =
    Ensures-if (Goes (money s)) s.is_hand_complete _ _ (λ h. (refl, inl h))
      λ _. continue_hand-Goes player s events b
