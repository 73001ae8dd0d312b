-- ===== src/Poker/Engine/Trace/Streets.antt =====
-- packages/poker-engine/src/engine.ts: what the end of a street adds to the events.
use agent_poker.Base.Append.{map-append, append_nil}
use agent_poker.Base.{
  ℕ, zero, suc, ◌≡◌, refl, sym, false, not, List, [], ◌∷◌, ◌++◌, Option, none, some, length,
  filter_by, ◌>>=◌, ◌==◌, Ensures, Ensures-bind, Ensures-then, Ensures-mono, Ensures-if, Bool-cases,
  inl, inr, ltb, leb, if◌then◌else◌,
}
use agent_poker.Base.Laws.{map-map_keep}
use agent_poker.Poker.Types.{
  GameState, GameEvent, Street, preflop, flop, turn, river, showdown, street_changed,
}
use agent_poker.Poker.Deck.{deal_cards}
use agent_poker.Poker.Positions.{get_first_to_act_postflop}
use agent_poker.Poker.Engine.State.{non_folded, active_seat_indices, folded_seats, all_in_seats}
use agent_poker.Poker.Engine.Finish.{finish_hand, event}
use agent_poker.Poker.Engine.Streets.{
  deal_board, deal_until_five, deal_remaining_community, run_out, first_turn, open_betting,
  start_street, enter_street, enter_next, reset_for_street, advance_street, get_next_street,
  is_river, board_street,
}
use agent_poker.Poker.Engine.Conserve.{Turn}
use agent_poker.Poker.Engine.Trace.{Follows, Follows-trans, finish_hand-Follows, payloads, ids_of}

-- A turn that does not end the hand.
abbrev GoesOn : GameState → List GameEvent → Turn → Type 0
GoesOn s events r = Follows s events r × (r.0.is_hand_complete ≡ false)

-- A turn with no event that keeps the players.
pub Follows-still :
    (s t : GameState) (events : List GameEvent)
    → ids_of t.players ≡ ids_of s.players
    → t.config ≡ s.config
    → t.is_hand_complete ≡ false
    → Follows s events (t, events)
Follows-still s t events same config open_hand = record {
  ids = same;
  config = config;
  extra = [];
  appended = sym (append_nil (payloads events));
  quiet = tt;
  ended = rw open_hand;
  announced = λ over. cc;
  cleared = λ over. cc;
}

deal_board-GoesOn :
    (count : ℕ) (name : ℕ → Street) (s : GameState) (events : List GameEvent)
    → s.is_hand_complete ≡ false
    → Ensures (GoesOn s events) (deal_board count name s events)
unfolding deal_board
deal_board-GoesOn count name s events h =
    Ensures-then (GoesOn s events) (deal_cards s.deck count) _ λ dealt _. (
      record {
        ids = refl;
        config = refl;
        extra = _;
        appended = map-append _ events _;
        quiet = ((refl, refl), tt);
        ended = rw h;
        announced = λ over. cc;
        cleared = λ over. cc;
      },
      h,
    )

deal_until_five-GoesOn :
    (fuel : ℕ) (s : GameState) (events : List GameEvent)
    → s.is_hand_complete ≡ false
    → Ensures (GoesOn s events) (deal_until_five fuel s events)
unfolding deal_until_five
deal_until_five-GoesOn zero s events h = (Follows-still s s events refl refl h, h)
deal_until_five-GoesOn (suc fuel) s events h =
    elim (Bool-cases (ltb (length s.community_cards) 5)) [
      | inl more ↦ rw more (
          Ensures-bind (GoesOn s events) (GoesOn s events)
            (deal_board (if length s.community_cards == 0 then 3 else 1) board_street s events) _
            (deal_board-GoesOn _ board_street s events h)
            λ r k.
              Ensures-mono (GoesOn r.0 r.1) (GoesOn s events) _
                (deal_until_five-GoesOn fuel r.0 r.1 k.1) λ q m. (Follows-trans k.0 k.1 m.0, m.1))
      | inr full ↦ rw full (Follows-still s s events refl refl h, h)
    ]

deal_and_finish-Follows :
    (s : GameState) (events : List GameEvent)
    → s.is_hand_complete ≡ false
    → Ensures (Follows s events) (deal_remaining_community s events >>= λ r. finish_hand r.0 r.1)
unfolding deal_remaining_community
deal_and_finish-Follows s events h =
    Ensures-bind (GoesOn s events) (Follows s events) (deal_until_five 5 s events) _
      (deal_until_five-GoesOn 5 s events h)
      λ r k.
        Ensures-mono (Follows r.0 r.1) (Follows s events) _ (finish_hand-Follows r.0 r.1)
          λ q m. Follows-trans k.0 k.1 m

run_out-Follows :
    (s : GameState) (events : List GameEvent)
    → s.is_hand_complete ≡ false
    → Ensures (Follows s events) (run_out s events)
unfolding run_out
run_out-Follows s events h = elim (Bool-cases (is_river s.street)) [
  | inl yes_river ↦ rw yes_river (finish_hand-Follows s events)
  | inr no_river ↦ rw no_river (deal_and_finish-Follows s events h)
]

first_turn-Follows :
    (first : Option ℕ) (s : GameState) (events : List GameEvent)
    → s.is_hand_complete ≡ false
    → Ensures (Follows s events) (first_turn first s events)
unfolding first_turn
first_turn-Follows none s events h = deal_and_finish-Follows s events h
first_turn-Follows (some seat) s events h = Follows-still s _ events refl refl h

open_betting-Follows :
    (next : Street) (s : GameState) (events : List GameEvent)
    → s.is_hand_complete ≡ false
    → Ensures (Follows s events) (open_betting next s events)
unfolding open_betting
open_betting-Follows next s events h =
    Ensures-then (Follows s events)
      (get_first_to_act_postflop (active_seat_indices s) s.dealer_seat_index (folded_seats s)
        (all_in_seats s))
      _
      λ first e.
        let told = events ++ event s (street_changed next) ∷ [] in
        let announced : Follows s events (s, told) = record {
          ids = refl;
          config = refl;
          extra = street_changed next ∷ [];
          appended = map-append _ events _;
          quiet = ((refl, refl), tt);
          ended = rw h;
          announced = λ over. cc;
          cleared = λ over. cc;
        } in
        Ensures-mono (Follows s told) (Follows s events) _ (first_turn-Follows first s told h)
          λ q m. Follows-trans announced h m

deal_and_open-Follows :
    (count : ℕ) (next : Street) (s : GameState) (events : List GameEvent)
    → s.is_hand_complete ≡ false
    → Ensures
        (Follows s events)
        (deal_board count (λ _. next) s events >>= λ r. open_betting next r.0 r.1)
deal_and_open-Follows count next s events h =
    Ensures-bind (GoesOn s events) (Follows s events) (deal_board count (λ _. next) s events) _
      (deal_board-GoesOn count (λ _. next) s events h)
      λ r k.
        Ensures-mono (Follows r.0 r.1) (Follows s events) _ (open_betting-Follows next r.0 r.1 k.1)
          λ q m. Follows-trans k.0 k.1 m

start_street-Follows :
    (next : Street) (s : GameState) (events : List GameEvent)
    → s.is_hand_complete ≡ false
    → Ensures (Follows s events) (start_street next s events)
unfolding start_street
start_street-Follows preflop s events h = open_betting-Follows preflop s events h
start_street-Follows flop s events h = deal_and_open-Follows 3 flop s events h
start_street-Follows turn s events h = deal_and_open-Follows 1 turn s events h
start_street-Follows river s events h = deal_and_open-Follows 1 river s events h
start_street-Follows showdown s events h = finish_hand-Follows s events

enter_next-Follows :
    (next : Option Street) (s : GameState) (events : List GameEvent)
    → s.is_hand_complete ≡ false
    → Ensures (Follows s events) (enter_next next s events)
unfolding enter_next
enter_next-Follows none s events h = run_out-Follows s events h
enter_next-Follows (some next) s events h =
    Ensures-mono (Follows (enter_street next s) events) (Follows s events) _
      (start_street-Follows next (enter_street next s) events h)
      λ q m.
        Follows-trans
          (Follows-still s (enter_street next s) events
            (map-map_keep (λ p. p.id) reset_for_street s.players (λ p. refl)) refl h)
          h m

pub advance_street-Follows :
    (s : GameState) (events : List GameEvent)
    → s.is_hand_complete ≡ false
    → Ensures (Follows s events) (advance_street s events)
unfolding advance_street
advance_street-Follows s events h =
    Ensures-if (Follows s events) (length (non_folded s.players) == 1) _ _
      (λ _. finish_hand-Follows s events)
      λ _.
        Ensures-if (Follows s events)
          (leb (length (filter_by (λ p. not p.is_all_in) (non_folded s.players))) 1) _ _
          (λ _. run_out-Follows s events h)
          λ _. enter_next-Follows (get_next_street s.street) s events h
