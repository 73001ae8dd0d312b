-- ===== src/Server/RingBuffer.antt =====
-- apps/game-server/src/event-ring-buffer.ts: the last events of a table, for clients that reconnect.
-- Time is an argument of `push`.
use agent_poker.Base.{
  ℕ, suc, ◌+◌, ◌-◌, ◌≤◌, ◌<◌, List, [], ◌∷◌, ◌++◌, map, length, filter_by, Option, none, some, ltb,
  if◌then◌else◌,
}
use agent_poker.Poker.Types.{GameEvent}
pub mod Delta

pub record BufferedEvent : Type 0 where
  pub event_id : ℕ
  pub event : GameEvent
  pub timestamp : ℕ

pub record EventRingBuffer : Type 0 where
  pub buffer : List BufferedEvent
  pub next_event_id : ℕ
  pub max_size : ℕ

unfoldable pub new_buffer : ℕ → EventRingBuffer
new_buffer max_size = record { buffer = []; next_event_id = 1; max_size = max_size }

-- `buffer.shift()`
abbrev pub shift : List BufferedEvent → List BufferedEvent
shift [] = []
shift (e ∷ es) = es

-- The new buffer and the id of the event.
unfoldable pub push : EventRingBuffer → GameEvent → ℕ → EventRingBuffer × ℕ
push b event now =
    let grown =
      b.buffer ++ record { event_id = b.next_event_id; event = event; timestamp = now } ∷ [] in
    (
      record b {
        buffer = if ltb b.max_size (length grown) then shift grown else grown;
        next_event_id = b.next_event_id + 1;
      },
      b.next_event_id,
    )

abbrev pub since : ℕ → List BufferedEvent → Option (List BufferedEvent)
since last [] = some []
since last (oldest ∷ rest) =
    if ltb last oldest.event_id
    then none
    else some (filter_by (λ be. ltb last be.event_id) (oldest ∷ rest))

-- `none` says that the requested id is too old.
unfoldable pub get_events_since : EventRingBuffer → ℕ → Option (List BufferedEvent)
get_events_since b last = since last b.buffer

abbrev last_id : List BufferedEvent → ℕ
last_id [] = 0
last_id (e ∷ []) = e.event_id
last_id (e ∷ f ∷ es) = last_id (f ∷ es)

unfoldable pub get_latest_event_id : EventRingBuffer → ℕ
get_latest_event_id b = last_id b.buffer

unfoldable pub clear : EventRingBuffer → EventRingBuffer
clear b = record b { buffer = []; next_event_id = 1 }

pub record Stats : Type 0 where
  pub size : ℕ
  pub oldest_event_id : ℕ
  pub latest_event_id : ℕ

abbrev first_id : List BufferedEvent → ℕ
first_id [] = 0
first_id (e ∷ es) = e.event_id

unfoldable pub get_stats : EventRingBuffer → Stats
unfolding get_latest_event_id
get_stats b = record {
  size = length b.buffer;
  oldest_event_id = first_id b.buffer;
  latest_event_id = get_latest_event_id b;
}
