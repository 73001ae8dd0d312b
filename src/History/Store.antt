-- ===== src/History/Store.antt =====
-- packages/hand-history/src/memory-store.ts: the events of each hand. The map is in insertion order.
use agent_poker.Base.{
  ℕ, List, [], ◌∷◌, ◌++◌, map, filter_by, includes, not, ◌==◌, if◌then◌else◌, sort_by,
}
use agent_poker.Base.Keys.{by_key}
use agent_poker.Poker.Types.{GameEvent}
pub mod Kept

abbrev pub MemoryHandHistoryStore : Type 0
MemoryHandHistoryStore = List (ℕ × List GameEvent)

abbrev pub seq_of : GameEvent → ℕ
seq_of e = e.seq

abbrev pub seqs : List GameEvent → List ℕ
seqs events = map seq_of events

-- `this.hands.get(handId) ?? []`
abbrev pub get_events : ℕ → MemoryHandHistoryStore → List GameEvent
get_events hand_id [] = []
get_events hand_id ((key, events) ∷ hands) =
    if key == hand_id then events else get_events hand_id hands

-- `this.hands.set(handId, …)`
abbrev pub set_events : ℕ → List GameEvent → MemoryHandHistoryStore → MemoryHandHistoryStore
set_events hand_id events [] = (hand_id, events) ∷ []
set_events hand_id events ((key, old) ∷ hands) =
    if key == hand_id then (key, events) ∷ hands else (key, old) ∷ set_events hand_id events hands

abbrev pub new_events : List GameEvent → List GameEvent → List GameEvent
new_events existing events = filter_by (λ e. not (includes e.seq (seqs existing))) events

unfoldable pub merge : List GameEvent → List GameEvent → List GameEvent
merge existing events = sort_by (by_key seq_of) (existing ++ new_events existing events)

unfoldable pub append_events : ℕ → List GameEvent → MemoryHandHistoryStore → MemoryHandHistoryStore
unfolding merge
append_events hand_id events hands =
    set_events hand_id (merge (get_events hand_id hands) events) hands

unfoldable pub list_hands : MemoryHandHistoryStore → List ℕ
list_hands hands = map (λ (entry : ℕ × List GameEvent). entry.0) hands
