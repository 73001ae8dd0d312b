-- ===== src/Poker/Engine/Apply.antt =====
-- packages/poker-engine/src/engine.ts: `applyAction`.
use agent_poker.Base.{
  ℕ, ◌+◌, ◌-◌, min, List, [], ◌∷◌, map, find_by, update_by, length, Option, none, some, Bool, true,
  false, not, ◌&&◌, ◌||◌, ltb, ◌==◌, if◌then◌else◌, ok, err, or_throw, ◌>>=◌,
}
use agent_poker.Poker.Types.{
  GameState, PlayerState, PlayerAction, Pot, GameEvent, ActionType, fold, check, call, bet, raise,
  BettingMode, limit, no_limit, pot_limit, Outcome, hand_already_complete, not_your_turn,
  invalid_action, raise_cap_reached, type_error, player_action,
}
use agent_poker.Poker.Positions.{get_next_active_seat}
use agent_poker.Poker.Engine.State.{
  has_id, get_active_player, active_seat_indices, folded_seats, all_in_seats, non_folded_players,
}
use agent_poker.Poker.Engine.Legal.{
  get_legal_actions, get_legal_action_ranges, is_raise_cap_reached, fixed_bet_size, to_call,
}
use agent_poker.Poker.Engine.Finish.{event, finish_hand}
use agent_poker.Poker.Engine.Streets.{advance_street, all_players_acted_and_matched}

abbrev pub action_eq : ActionType → ActionType → Bool
action_eq fold fold = true
action_eq check check = true
action_eq call call = true
action_eq bet bet = true
action_eq raise raise = true
action_eq _ _ = false

abbrev pub is_legal : ActionType → List ActionType → Bool
is_legal a [] = false
is_legal a (b ∷ bs) = action_eq b a || is_legal a bs

-- A player puts chips in.
abbrev pub put_in : ℕ → PlayerState → PlayerState
put_in amount p = record p {
  chips = p.chips - amount;
  current_bet = p.current_bet + amount;
  total_bet_this_hand = p.total_bet_this_hand + amount;
  has_acted = true;
  is_all_in = if p.chips - amount == 0 then true else p.is_all_in;
}

-- `newState.pots[0]!.amount += amount`
abbrev pub add_to_main : ℕ → List Pot → Outcome (List Pot)
add_to_main amount [] = err type_error
add_to_main amount (q ∷ qs) = ok (record q { amount = q.amount + amount } ∷ qs)

-- The others who can still act must answer a bet.
abbrev pub reopen : ℕ → PlayerState → PlayerState
reopen id p =
    if not (p.id == id) && not p.has_folded && not p.is_all_in
    then record p { has_acted = false }
    else p

-- A requested amount against a stack and a range: more than the stack is all-in.
abbrev pub checked_amount : ℕ → ℕ → ℕ → ℕ → Outcome ℕ
checked_amount chips low high requested =
    if ltb chips requested
    then ok chips
    else if ltb requested low
    then err invalid_action
    else if ltb high requested
    then err invalid_action
    else ok requested

abbrev pub or_else : Option ℕ → ℕ → ℕ
or_else none n = n
or_else (some m) n = m

unfoldable pub bet_amount : BettingMode → GameState → PlayerState → Option ℕ → Outcome ℕ
bet_amount limit s player amount = ok (min (fixed_bet_size s) player.chips)
bet_amount no_limit s player amount = get_legal_action_ranges s >>= λ r.
    checked_amount player.chips r.min_bet r.max_bet (or_else amount r.min_bet)
bet_amount pot_limit s player amount = get_legal_action_ranges s >>= λ r.
    checked_amount player.chips r.min_bet r.max_bet (or_else amount r.min_bet)

-- The amount of a raise and its increment.
unfoldable pub raise_amount : BettingMode → GameState → PlayerState → Option ℕ → Outcome (ℕ × ℕ)
raise_amount limit s player amount =
    ok (min (to_call s player + fixed_bet_size s) player.chips, fixed_bet_size s)
raise_amount no_limit s player amount = get_legal_action_ranges s >>= λ r.
    checked_amount player.chips r.min_raise r.max_raise (or_else amount r.min_raise) >>= λ a.
    ok (a, a - to_call s player)
raise_amount pot_limit s player amount = get_legal_action_ranges s >>= λ r.
    checked_amount player.chips r.min_raise r.max_raise (or_else amount r.min_raise) >>= λ a.
    ok (a, a - to_call s player)

-- Chips of one player move to the main pot.
unfoldable pub commit : ℕ → ℕ → GameState → Outcome GameState
commit id amount s = add_to_main amount s.pots >>= λ pots.
    ok (record s { players = update_by (has_id id) (put_in amount) s.players; pots = pots })

-- What `BET` and `RAISE` share once the amount and the new size of the last raise are known.
unfoldable pub aggress : ℕ → ActionType → ℕ → ℕ → GameState → Outcome (GameState × List GameEvent)
unfolding commit
aggress id type amount size s = commit id amount s >>= λ t. ok (
  record t {
    bets_this_street = s.bets_this_street + 1;
    last_raise_size = size;
    players = map (reopen id) t.players;
  },
  event s (player_action id type (some amount)) ∷ [],
)

abbrev pub fold_player : PlayerState → PlayerState
fold_player p = record p { has_folded = true }

abbrev pub check_player : PlayerState → PlayerState
check_player p = record p { has_acted = true }

-- The `switch` on the action's type, for the player who acts.
unfoldable pub perform :
    ActionType → Option ℕ → ℕ → PlayerState → GameState → Outcome (GameState × List GameEvent)
unfolding commit aggress bet_amount raise_amount finish_hand
perform fold amount id player s =
    let folded : GameState = record s { players = update_by (has_id id) fold_player s.players } in
    let events = event s (player_action id fold none) ∷ [] in
    if length (non_folded_players folded) == 1
    then finish_hand folded events
    else ok (folded, events)
perform check amount id player s = ok (
  record s { players = update_by (has_id id) check_player s.players },
  event s (player_action id check none) ∷ [],
)
perform call amount id player s =
    let called : ℕ = min (to_call s player) player.chips in
    commit id called s >>= λ t. ok (t, event s (player_action id call (some called)) ∷ [])
perform bet amount id player s =
    bet_amount s.config.betting_mode s player amount >>= λ a. aggress id bet a a s
perform raise amount id player s =
    if is_raise_cap_reached s
    then err raise_cap_reached
    else raise_amount s.config.betting_mode s player amount >>= λ r.
        aggress id raise r.0 (if ltb 0 r.1 then r.1 else s.last_raise_size) s

unfoldable pub next_turn :
    Option ℕ → GameState → List GameEvent → Outcome (GameState × List GameEvent)
unfolding advance_street
next_turn none s events = advance_street s events
next_turn (some seat) s events = ok (record s { active_player_seat_index = seat }, events)

-- The street advances, or the turn passes on.
unfoldable pub continue_hand :
    PlayerState → GameState → List GameEvent → Outcome (GameState × List GameEvent)
unfolding advance_street all_players_acted_and_matched next_turn
continue_hand player s events =
    if all_players_acted_and_matched s
    then advance_street s events
    else next_turn
        (get_next_active_seat (active_seat_indices s) player.seat_index (folded_seats s)
          (all_in_seats s))
        s events

-- The end of `applyAction`.
unfoldable pub settle :
    PlayerState → GameState → List GameEvent → Outcome (GameState × List GameEvent)
unfolding continue_hand
settle player s events =
    if s.is_hand_complete then ok (s, events) else continue_hand player s events

-- `events.forEach((e, i) => { e.seq = i; })`
abbrev pub number_from : ℕ → List GameEvent → List GameEvent
number_from n [] = []
number_from n (e ∷ es) = record e { seq = n } ∷ number_from (n + 1) es

-- The part behind the guards: `player` is found by its id in the copied state.
unfoldable pub act : GameState → ℕ → PlayerAction → Outcome (GameState × List GameEvent)
unfolding perform settle
act s id action = or_throw (find_by (has_id id) s.players) type_error >>= λ player.
    perform action.type action.amount id player s >>= λ r.
    settle player r.0 r.1 >>= λ t. ok (t.0, number_from 0 t.1)

unfoldable pub apply_action : GameState → ℕ → PlayerAction → Outcome (GameState × List GameEvent)
apply_action s id action =
    if s.is_hand_complete
    then err hand_already_complete
    else get_active_player s >>= λ active.
        if not (active.id == id)
        then err not_your_turn
        else get_legal_actions s >>= λ legal.
            if is_legal action.type legal then act s id action else err invalid_action
