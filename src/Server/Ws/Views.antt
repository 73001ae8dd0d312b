-- ===== src/Server/Ws/Views.antt =====
-- apps/game-server/src/ws-handler.ts: `sanitizeStateForPlayer` and `broadcastState`.
use agent_poker.Base.{ℕ, List, [], map, Bool, not, ◌&&◌, ◌==◌, if◌then◌else◌, ok, ◌>>=◌}
use agent_poker.Poker.Types.{GameState, PlayerState, Outcome}
use agent_poker.Poker.Positions.{Position, assign_positions}
use agent_poker.Poker.Engine.State.{active_seat_indices}
use agent_poker.History.HashChain.{Text}
use agent_poker.Server.Ws.{GameServerWs, ConnectedClient, View, Message, state_message, send_each}

abbrev pub hide_cards : Bool → ℕ → PlayerState → PlayerState
hide_cards is_complete agent_id p =
    if not (p.id == agent_id) && not is_complete then record p { hole_cards = [] } else p

unfoldable pub sanitize_state_for_player : GameState → ℕ → View
sanitize_state_for_player s agent_id = record {
  hand_id = s.hand_id;
  config = s.config;
  street = s.street;
  players = map (hide_cards s.is_hand_complete agent_id) s.players;
  dealer_seat_index = s.dealer_seat_index;
  active_player_seat_index = s.active_player_seat_index;
  community_cards = s.community_cards;
  pots = s.pots;
  bets_this_street = s.bets_this_street;
  last_raise_size = s.last_raise_size;
  is_hand_complete = s.is_hand_complete;
  winners = s.winners;
  result_summary = s.result_summary;
}

abbrev pub positions_of : GameState → Outcome (List (ℕ × Position))
positions_of s = assign_positions (active_seat_indices s) s.dealer_seat_index

abbrev pub view_message : GameState → List (ℕ × Position) → ConnectedClient → Message
view_message s positions c = state_message (sanitize_state_for_player s c.agent_id) positions

-- An error is thrown before anything is sent.
unfoldable pub broadcast_state : Text → GameState → GameServerWs → Outcome GameServerWs
broadcast_state id s g =
    positions_of s >>= λ positions. ok (send_each id (view_message s positions) g.clients g)
