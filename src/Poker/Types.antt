-- ===== src/Poker/Types.antt =====
-- packages/poker-engine/src/types.ts: cards, players, pots, the game state, events and errors.
-- Player and hand ids are only compared, so they are numbers; chip amounts are natural numbers.
use agent_poker.Base.{ℕ, Bool, Option, List, [], ◌∷◌, Result}

pub data Suit : Type 0 where
  hearts diamonds clubs spades : Suit

-- The value of a rank, as `RANK_VALUE` of evaluate.ts gives it, is `rank_value` of Evaluate.
pub data Rank : Type 0 where
  two three four five six seven eight nine ten jack queen king ace : Rank

abbrev pub suits : List Suit
suits = hearts ∷ diamonds ∷ clubs ∷ spades ∷ []

abbrev pub ranks : List Rank
ranks =
    two ∷ three ∷ four ∷ five ∷ six ∷ seven ∷ eight ∷ nine ∷ ten ∷ jack ∷ queen ∷ king ∷ ace ∷ []

pub record Card : Type 0 where
  pub rank : Rank
  pub suit : Suit

pub data Street : Type 0 where
  preflop flop turn river showdown : Street

pub data ActionType : Type 0 where
  fold check call bet raise : ActionType

pub record PlayerAction : Type 0 where
  pub type : ActionType
  pub amount : Option ℕ

pub record PlayerState : Type 0 where
  pub id : ℕ
  pub seat_index : ℕ
  pub chips : ℕ
  pub hole_cards : List Card
  pub current_bet : ℕ
  pub total_bet_this_hand : ℕ
  pub has_folded : Bool
  pub has_acted : Bool
  pub is_all_in : Bool

pub record PlayerSetup : Type 0 where
  pub id : ℕ
  pub seat_index : ℕ
  pub chips : ℕ

pub record Pot : Type 0 where
  pub amount : ℕ
  pub eligible : List ℕ

pub data BettingMode : Type 0 where
  limit no_limit pot_limit : BettingMode

pub record GameConfig : Type 0 where
  pub betting_mode : BettingMode
  pub small_blind : ℕ
  pub big_blind : ℕ
  pub small_bet : ℕ
  pub big_bet : ℕ
  pub ante : ℕ
  pub max_raises_per_street : ℕ
  pub max_players : ℕ

abbrev pub default_config : GameConfig
default_config = record {
  betting_mode = limit;
  small_blind = 1;
  big_blind = 2;
  small_bet = 2;
  big_bet = 4;
  ante = 0;
  max_raises_per_street = 4;
  max_players = 6;
}

abbrev pub default_nl_config : GameConfig
default_nl_config = record {
  betting_mode = no_limit;
  small_blind = 1;
  big_blind = 2;
  small_bet = 0;
  big_bet = 0;
  ante = 0;
  max_raises_per_street = 0;
  max_players = 6;
}

abbrev pub default_pl_config : GameConfig
default_pl_config = record {
  betting_mode = pot_limit;
  small_blind = 1;
  big_blind = 2;
  small_bet = 0;
  big_bet = 0;
  ante = 0;
  max_raises_per_street = 0;
  max_players = 6;
}

pub data HandRankType : Type 0 where
  high_card pair two_pair three_of_a_kind straight flush full_house four_of_a_kind straight_flush :
      HandRankType

-- The texts that describe a hand are left out.
pub record HandEvaluation : Type 0 where
  pub rank : HandRankType
  pub values : List ℕ
  pub best_cards : List Card

pub record Distribution : Type 0 where
  pub player_id : ℕ
  pub amount : ℕ
  pub pot_index : Option ℕ

pub record HandRanking : Type 0 where
  pub player_id : ℕ
  pub hand_rank : HandRankType

pub record HandResult : Type 0 where
  pub winners : List ℕ
  pub pot_distribution : List Distribution
  pub hand_rankings : Option (List HandRanking)

pub record GameState : Type 0 where
  pub hand_id : ℕ
  pub config : GameConfig
  pub street : Street
  pub players : List PlayerState
  pub dealer_seat_index : ℕ
  pub active_player_seat_index : ℕ
  pub community_cards : List Card
  pub deck : List Card
  pub pots : List Pot
  pub bets_this_street : ℕ
  pub last_raise_size : ℕ
  pub is_hand_complete : Bool
  pub winners : Option (List ℕ)
  pub result_summary : Option HandResult

pub record Posting : Type 0 where
  pub player_id : ℕ
  pub amount : ℕ

pub record Shown : Type 0 where
  pub player_id : ℕ
  pub hole_cards : List Card
  pub hand_rank : HandRankType

pub data Reason : Type 0 where
  by_fold by_showdown : Reason

-- The type of an event and its payload.
pub data Payload : Type 0 where
  hand_start : List PlayerSetup → ℕ → GameConfig → Payload
  antes_posted : List Posting → ℕ → Payload
  blinds_posted : Posting → Posting → Payload
  hole_cards_dealt : List (ℕ × List Card) → Payload
  community_cards_dealt : Street → List Card → Payload
  player_action : ℕ → ActionType → Option ℕ → Payload
  street_changed : Street → Payload
  hands_shown : List Shown → Payload
  pot_distributed : List Distribution → Reason → Payload
  hand_end : HandResult → Payload

pub record GameEvent : Type 0 where
  pub seq : ℕ
  pub hand_id : ℕ
  pub payload : Payload

-- The codes of `PokerError`, and the other errors that the engine throws; `type_error` is a read
-- through `undefined` or `null`.
pub data EngineError : Type 0 where
  not_your_turn invalid_action hand_already_complete raise_cap_reached : EngineError
  deck_exhausted bad_player_count dealer_not_seated type_error : EngineError

abbrev pub Outcome : Type 0 → Type 0
Outcome A = Result EngineError A
