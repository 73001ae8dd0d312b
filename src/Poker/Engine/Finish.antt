-- ===== src/Poker/Engine/Finish.antt =====
-- packages/poker-engine/src/engine.ts: `finishHand`, the win by folds and the showdown.
pub mod Shares
pub mod Pots
pub mod Claims
pub mod Evaluated
pub mod Total
use agent_poker.Base.{
  ℕ, ◌+◌, ◌-◌, ◌*◌, ◌/◌, List, [], ◌∷◌, ◌++◌, map, filter_by, find_by, update_by, length, includes,
  index_of, sort, sort_by, Option, none, some, Bool, true, false, not, ◌&&◌, ltb, ◌==◌,
  if◌then◌else◌, ok, err, or_throw, ◌>>=◌,
}
use agent_poker.Base.Int.{is_negative, is_positive, ℤ}
use agent_poker.Poker.Types.{
  GameState, PlayerState, Pot, Card, GameEvent, Payload, pot_distributed, hand_end, hands_shown,
  by_fold, by_showdown, HandResult, HandEvaluation, HandRanking, Distribution, Shown, Outcome,
  type_error, showdown,
}
use agent_poker.Poker.Positions.{clockwise}
use agent_poker.Poker.SidePots.{calculate_side_pots}
use agent_poker.Poker.Evaluate.{evaluate_best_hand, compare_hands}
use agent_poker.Poker.Engine.State.{has_id, non_folded, pot_sum}

-- An event before the numbers are given out.
abbrev pub event : GameState → Payload → GameEvent
event s payload = record { seq = 0; hand_id = s.hand_id; payload = payload }

abbrev pub add_chips : ℕ → PlayerState → PlayerState
add_chips amount p = record p { chips = p.chips + amount }

-- `for (const pot of state.pots) pot.amount = 0`
abbrev pub zero_pots : List Pot → List Pot
zero_pots pots = map (λ (q : Pot). record q { amount = 0 }) pots

unfoldable pub fold_win : GameState → PlayerState → List GameEvent → GameState × List GameEvent
fold_win s winner events =
    let total : ℕ = pot_sum s in
    let paid : List Distribution =
      record { player_id = winner.id; amount = total; pot_index = none } ∷ [] in
    let result : HandResult = record {
      winners = winner.id ∷ [];
      pot_distribution = paid;
      hand_rankings = none;
    } in
    (
      record s {
        is_hand_complete = true;
        players = update_by (λ p. not p.has_folded) (add_chips total) s.players;
        pots = zero_pots s.pots;
        winners = some (winner.id ∷ []);
        result_summary = some result;
      },
      events ++ event s (pot_distributed paid by_fold) ∷ event s (hand_end result) ∷ [],
    )

-- The map `handEvals`.
abbrev pub Evals : Type 0
Evals = List (ℕ × HandEvaluation)

abbrev pub get_eval : Evals → ℕ → Outcome HandEvaluation
get_eval [] id = err type_error
get_eval ((key, e) ∷ evals) id = if key == id then ok e else get_eval evals id

abbrev pub set_eval : ℕ → HandEvaluation → Evals → Evals
set_eval id e [] = (id, e) ∷ []
set_eval id e ((key, f) ∷ evals) =
    if key == id then (id, e) ∷ evals else (key, f) ∷ set_eval id e evals

unfoldable pub evaluate_players : List Card → List PlayerState → Evals → Outcome Evals
evaluate_players community [] evals = ok evals
evaluate_players community (p ∷ ps) evals =
    or_throw (evaluate_best_hand p.hole_cards community) type_error >>= λ e.
    evaluate_players community ps (set_eval p.id e evals)

unfoldable pub shown_hands : Evals → List PlayerState → Outcome (List Shown)
shown_hands evals [] = ok []
shown_hands evals (p ∷ ps) = get_eval evals p.id >>= λ e. shown_hands evals ps >>= λ rest.
    ok (record { player_id = p.id; hole_cards = p.hole_cards; hand_rank = e.rank } ∷ rest)

-- What the loop over the side pots changes.
pub record Payout : Type 0 where
  pub players : List PlayerState
  pub all_winners : List ℕ
  pub distributions : List Distribution

abbrev add_winner : ℕ → List ℕ → List ℕ
add_winner id winners = if includes id winners then winners else winners ++ id ∷ []

-- `player.chips += amount`, and the records of it.
unfoldable pub pay : ℕ → ℕ → ℕ → Payout → Outcome Payout
pay pot_index id amount payout = elim (find_by (has_id id) payout.players) [
  | none ↦ err type_error
  | some _ ↦ ok (record {
    players = update_by (has_id id) (add_chips amount) payout.players;
    all_winners = add_winner id payout.all_winners;
    distributions =
        payout.distributions
        ++ record { player_id = id; amount = amount; pot_index = some pot_index } ∷ [];
  })
]

abbrev pub seat_of : List PlayerState → ℕ → Outcome ℕ
seat_of players id = or_throw (find_by (has_id id) players) type_error >>= λ p. ok p.seat_index

unfoldable pub seats_of : List PlayerState → List ℕ → Outcome (List ℕ)
seats_of players [] = ok []
seats_of players (id ∷ ids) =
    seat_of players id >>= λ seat. seats_of players ids >>= λ seats. ok (seat ∷ seats)

-- The seats clockwise from the dealer's left; a dealer who is not seated has index -1.
unfoldable pub clockwise_seats : List PlayerState → ℕ → List ℕ
clockwise_seats players dealer =
    let seat_order = sort (map (λ p. p.seat_index) players) in
    elim (index_of dealer seat_order) [
      | none ↦ clockwise seat_order 0 0 (length seat_order)
      | some pos ↦ clockwise seat_order pos 1 (length seat_order)
    ]

abbrev pub is_seat : Option ℕ → ℕ → Bool
is_seat none seat = false
is_seat (some s) seat = seat == s

-- The loop over the winners of one pot: the remainder goes to the winner in the earliest seat.
unfoldable pub pay_winners : ℕ → ℕ → Option ℕ → ℕ → List ℕ → Payout → Outcome Payout
unfolding pay
pay_winners pot_index share earliest remainder [] payout = ok payout
pay_winners pot_index share earliest remainder (id ∷ ids) payout =
    seat_of payout.players id >>= λ seat.
    let hit : Bool = ltb 0 remainder && is_seat earliest seat in
    pay pot_index id (share + (if hit then remainder else 0)) payout >>= λ paid.
    pay_winners pot_index share earliest (if hit then 0 else remainder) ids paid

unfoldable pub evals_of : Evals → List ℕ → Outcome Evals
evals_of evals [] = ok []
evals_of evals (id ∷ ids) =
    get_eval evals id >>= λ e. evals_of evals ids >>= λ rest. ok ((id, e) ∷ rest)

-- All players tied with the best hand, in the sorted order.
unfoldable pub tied_with_best : Evals → List ℕ
tied_with_best [] = []
tied_with_best ((id, best) ∷ rest) =
    map (λ r. r.0)
      (filter_by
        (λ r. let c : ℤ = compare_hands r.1 best in not (is_positive c) && not (is_negative c))
        ((id, best) ∷ rest))

-- `sort((a, b) => compareHands(eb, ea))`, and the players tied with the first.
unfoldable pub pot_winners : Evals → List ℕ
unfolding tied_with_best
pot_winners evals = tied_with_best (sort_by (λ a b. is_negative (compare_hands b.1 a.1)) evals)

unfoldable pub split_pot : Evals → ℕ → ℕ → ℕ → List ℕ → Payout → Outcome Payout
unfolding pay_winners pot_winners evals_of seats_of clockwise_seats
split_pot evals dealer pot_index amount eligible payout = evals_of evals eligible >>= λ ranked.
    let ids = pot_winners ranked in
    let share : ℕ = amount / length ids in
    seats_of payout.players ids >>= λ winner_seats.
    let earliest = find_by (λ s. includes s winner_seats) (clockwise_seats payout.players dealer) in
    pay_winners pot_index share earliest (amount - share * length ids) ids payout

abbrev pub is_in_hand : List PlayerState → ℕ → Bool
is_in_hand players id = elim (find_by (has_id id) players) [
  | none ↦ false
  | some p ↦ not p.has_folded
]

-- The winners of one pot, from those of its players who have not folded.
unfoldable pub pay_eligible : Evals → ℕ → ℕ → ℕ → List ℕ → Payout → Outcome Payout
unfolding split_pot pay
pay_eligible evals dealer pot_index amount [] payout = ok payout
pay_eligible evals dealer pot_index amount (id ∷ []) payout = pay pot_index id amount payout
pay_eligible evals dealer pot_index amount (id ∷ next ∷ ids) payout =
    split_pot evals dealer pot_index amount (id ∷ next ∷ ids) payout

unfoldable pub pay_pot : Evals → ℕ → ℕ → Pot → Payout → Outcome Payout
unfolding pay_eligible
pay_pot evals dealer pot_index pot payout =
    if pot.amount == 0
    then ok payout
    else pay_eligible evals dealer pot_index pot.amount
        (filter_by (is_in_hand payout.players) pot.eligible) payout

unfoldable pub pay_pots : Evals → ℕ → ℕ → List Pot → Payout → Outcome Payout
unfolding pay_pot
pay_pots evals dealer pot_index [] payout = ok payout
pay_pots evals dealer pot_index (pot ∷ pots) payout =
    pay_pot evals dealer pot_index pot payout >>= λ paid.
    pay_pots evals dealer (pot_index + 1) pots paid

abbrev ranking_of : Shown → HandRanking
ranking_of s = record { player_id = s.player_id; hand_rank = s.hand_rank }

-- The state after the payout, and its events.
abbrev pub close_hand :
    GameState → List Shown → Payout → List GameEvent → GameState × List GameEvent
close_hand s shown payout events =
    let result : HandResult = record {
      winners = payout.all_winners;
      pot_distribution = payout.distributions;
      hand_rankings = some (map ranking_of shown);
    } in
    (
      record s {
        is_hand_complete = true;
        street = showdown;
        players = payout.players;
        pots = zero_pots s.pots;
        winners = some payout.all_winners;
        result_summary = some result;
      },
      events
          ++ event s (hands_shown shown)
            ∷ event s (pot_distributed payout.distributions by_showdown)
            ∷ event s (hand_end result)
            ∷ [],
    )

unfoldable pub show_down : GameState → List GameEvent → Outcome (GameState × List GameEvent)
unfolding pay_pots evaluate_players shown_hands calculate_side_pots
show_down s events = evaluate_players s.community_cards (non_folded s.players) [] >>= λ evals.
    shown_hands evals (non_folded s.players) >>= λ shown.
    pay_pots evals s.dealer_seat_index 0 (calculate_side_pots s.players)
      (record { players = s.players; all_winners = []; distributions = [] })
    >>= λ payout. ok (close_hand s shown payout events)

-- `finishHand`, by the players who have not folded.
unfoldable pub finish_with :
    List PlayerState → GameState → List GameEvent → Outcome (GameState × List GameEvent)
unfolding fold_win show_down
finish_with [] s events = show_down s events
finish_with (winner ∷ []) s events = ok (fold_win s winner events)
finish_with (p ∷ q ∷ ps) s events = show_down s events

unfoldable pub finish_hand : GameState → List GameEvent → Outcome (GameState × List GameEvent)
unfolding finish_with
finish_hand s events = finish_with (non_folded s.players) s events
