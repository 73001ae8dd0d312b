-- ===== src/Tests/Runs.antt =====
-- Hands, and states of hands, that the runs start from.
use agent_poker.Base.{ℕ, ◌≡◌, refl, List, [], ◌∷◌, none, some, Bool, true, false, Result, ok, err}
use agent_poker.Poker.Types.{
  Card, PlayerSetup, PlayerState, PlayerAction, GameState, default_nl_config, raise, ActionType,
  flop, river, ace, king, two, seven, nine, jack, four, hearts, spades, clubs, diamonds,
}

abbrev pub returns : {E A : Type 0} → Result E A → Bool
returns (ok a) = true
returns (err e) = false

pub impossible : {A : Type 0} → false ≡ true → A
impossible h = cc

-- The result of a call that returns.
abbrev pub result : {E A : Type 0} (m : Result E A) → returns m ≡ true → (a : A) × (m ≡ ok a)
result (ok a) h = (a, refl)
result (err e) h = impossible h

abbrev pub setups : List PlayerSetup
setups =
    record { id = 10; seat_index = 0; chips = 100 }
    ∷ record { id = 11; seat_index = 2; chips = 50 }
    ∷ record { id = 12; seat_index = 4; chips = 80 }
    ∷ []

abbrev pub seat : ℕ → ℕ → ℕ → ℕ → PlayerState
seat id at chips total = record {
  id = id;
  seat_index = at;
  chips = chips;
  hole_cards = [];
  current_bet = 0;
  total_bet_this_hand = total;
  has_folded = false;
  has_acted = false;
  is_all_in = false;
}

-- Three players on the flop, two of them with five chips in the pot and one with three, folded.
abbrev pub on_flop : GameState
on_flop = record {
  hand_id = 1;
  config = default_nl_config;
  street = flop;
  players = seat 10 0 95 5 ∷ record (seat 11 2 47 3) { has_folded = true } ∷ seat 12 4 75 5 ∷ [];
  dealer_seat_index = 0;
  active_player_seat_index = 4;
  community_cards = [];
  deck = [];
  pots = record { amount = 13; eligible = 10 ∷ 11 ∷ 12 ∷ [] } ∷ [];
  bets_this_street = 0;
  last_raise_size = 2;
  is_hand_complete = false;
  winners = none;
  result_summary = none;
}

abbrev pub bet_ten : PlayerAction
bet_ten = record { type = ActionType.bet; amount = some 10 }

abbrev pub raise_to_sixty : PlayerAction
raise_to_sixty = record { type = raise; amount = some 60 }

abbrev pub on_flop_with : List Card → GameState
on_flop_with cards = record on_flop { deck = cards }

-- The same players on the river, with a pair of aces and a pair of kings.
abbrev pub on_river : GameState
on_river = record on_flop {
  street = river;
  players =
      record (seat 10 0 95 5) {
        hole_cards =
            record { rank = ace; suit = hearts } ∷ record { rank = ace; suit = spades } ∷ [];
      }
      ∷ record (seat 11 2 47 3) { has_folded = true }
      ∷ record (seat 12 4 75 5) {
        hole_cards =
            record { rank = king; suit = hearts } ∷ record { rank = king; suit = clubs } ∷ [];
      }
      ∷ [];
  community_cards =
      record { rank = two; suit = clubs }
      ∷ record { rank = seven; suit = diamonds }
      ∷ record { rank = nine; suit = spades }
      ∷ record { rank = jack; suit = hearts }
      ∷ record { rank = four; suit = clubs }
      ∷ [];
}
