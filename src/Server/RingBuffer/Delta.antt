-- ===== src/Server/RingBuffer/Delta.antt =====
-- apps/game-server/src/event-ring-buffer.ts: the ids of a buffer and of a delta.
use agent_poker.Base.{
  ℕ, suc, ◌+◌, ◌-◌, ◌≤◌, ◌<◌, ◌≡◌, refl, sym, true, false, List, [], ◌∷◌, ◌++◌, map, length,
  length-append, filter_by, range_from, some, ltb, arith, Bool-cases, inl, inr,
}
use agent_poker.Poker.Types.{GameEvent}
use agent_poker.Server.RingBuffer.{
  BufferedEvent, EventRingBuffer, new_buffer, shift, push, get_events_since, since,
}

abbrev pub ids : List BufferedEvent → List ℕ
ids es = map (λ e. e.event_id) es

-- The ids count up from `first`.
abbrev pub Runs : ℕ → List BufferedEvent → Type 0
Runs first [] = Unit
Runs first (e ∷ es) = (e.event_id ≡ first) × Runs (first + 1) es

-- The buffer holds the latest events, with consecutive ids, and at most `max_size` of them.
pub record IsValid (b : EventRingBuffer) : Type 0 where
  pub room : length b.buffer < b.next_event_id
  pub runs : Runs (b.next_event_id - length b.buffer) b.buffer
  pub bounded : length b.buffer ≤ b.max_size

pub new_buffer-IsValid : (max_size : ℕ) → IsValid (new_buffer max_size)
unfolding new_buffer
new_buffer-IsValid max_size = omega arith

Runs-push :
    (first : ℕ) (es : List BufferedEvent) (e : BufferedEvent)
    → Runs first es
    → e.event_id ≡ first + length es
    → Runs first (es ++ e ∷ [])
Runs-push first [] e h k = (omega arith, tt)
Runs-push first (x ∷ xs) e h k = (h.0, Runs-push (first + 1) xs e h.1 (omega arith))

Runs-cast : (a b : ℕ) (es : List BufferedEvent) → a ≡ b → Runs a es → Runs b es
Runs-cast a b es e h = rw (sym e) h

-- Dropping the oldest event of a buffer that is over its size by one.
shift-IsValid :
    (max_size next : ℕ) (es : List BufferedEvent)
    → Runs (next - length es) es
    → length es < next
    → length es ≤ max_size + 1
    → IsValid (record { buffer = shift es; next_event_id = next; max_size = max_size })
shift-IsValid max_size next [] runs room bounded = omega arith
shift-IsValid max_size next (e ∷ es) runs room bounded = record {
  room = omega arith;
  runs = Runs-cast (next - suc (length es) + 1) (next - length es) es (omega arith) runs.1;
  bounded = omega arith;
}

-- Adding an event to a valid buffer leaves a valid one: the ids are consecutive up to the last,
-- and no more events are kept than the size allows.
pub push-IsValid :
    (b : EventRingBuffer) (event : GameEvent) (now : ℕ) → IsValid b → IsValid (push b event now).0
unfolding push
push-IsValid b event now v =
    let added : BufferedEvent = record {
      event_id = b.next_event_id;
      event = event;
      timestamp = now;
    } in
    let grown = b.buffer ++ added ∷ [] in
    let count = length-append {0} b.buffer (added ∷ []) in
    let runs : Runs (b.next_event_id + 1 - length grown) grown =
      Runs-cast (b.next_event_id - length b.buffer) (b.next_event_id + 1 - length grown) grown
        (omega (arith, count, v.room))
        (Runs-push (b.next_event_id - length b.buffer) b.buffer added v.runs
          (omega (arith, v.room))) in
    elim (Bool-cases (ltb b.max_size (length grown))) [
      | inl full ↦ rw full (
          shift-IsValid b.max_size (b.next_event_id + 1) grown runs (omega (arith, count, v.room))
            (omega (arith, count, v.bounded)))
      | inr fits ↦
          rw fits
            (record { room = omega (arith, count, v.room); runs = runs; bounded = ground arith })
    ]

-- Above a number below the first id lies the whole buffer.
Runs-above :
    (last first : ℕ) (es : List BufferedEvent)
    → Runs first es
    → last < first
    → ids (filter_by (λ be. ltb last be.event_id) es) ≡ range_from first (length es)
Runs-above last first [] h low = refl
Runs-above last first (e ∷ es) h low =
    let kept : ltb last e.event_id ≡ true = ground arith in
    rw (kept, h.0, Runs-above last (first + 1) es h.1 (omega arith))

Runs-since :
    (last first count : ℕ) (es : List BufferedEvent)
    → Runs first es
    → first ≤ last + 1
    → count ≡ first + length es - 1 - last
    → ids (filter_by (λ be. ltb last be.event_id) es) ≡ range_from (last + 1) count
Runs-since last first count [] h low c = rw c (rw none_left)
  where
    none_left : first + 0 - 1 - last ≡ 0
    none_left = omega arith
Runs-since last first count (e ∷ es) h low c = elim (Bool-cases (ltb last first)) [
  | inl above ↦
      let at : first ≡ last + 1 = ground arith in
      let all_left : count ≡ suc (length es) = omega arith in
      rw all_left (rw (← at) (Runs-above last first (e ∷ es) h (omega arith)))
  | inr below ↦
      let dropped : ltb last e.event_id ≡ false = ground arith in
      let within : first ≤ last = ground arith in
      rw dropped (Runs-since last (first + 1) count es h.1 (omega arith) (omega arith))
]

-- In a valid buffer the events since an id that is not below the oldest id kept (the next id, if
-- none is kept) are all later ones, in order and with no gap.
pub get_events_since-delta :
    (b : EventRingBuffer) (last : ℕ)
    → IsValid b
    → b.next_event_id - length b.buffer ≤ last
    → (es : List BufferedEvent) × (get_events_since b last ≡ some es)
      × (ids es ≡ range_from (last + 1) (b.next_event_id - 1 - last))
unfolding get_events_since
get_events_since-delta b last v h = go b.buffer v.runs v.room h
  where
    go :
        (es : List BufferedEvent)
        → Runs (b.next_event_id - length es) es
        → length es < b.next_event_id
        → b.next_event_id - length es ≤ last
        → (found : List BufferedEvent) × (since last es ≡ some found)
          × (ids found ≡ range_from (last + 1) (b.next_event_id - 1 - last))
    go [] runs room low =
        let done : b.next_event_id - 1 - last ≡ 0 = omega arith in ([], refl, rw done)
    go (e ∷ es) runs room low =
        let kept : ltb last e.event_id ≡ false = ground arith in
        (
          filter_by (λ be. ltb last be.event_id) (e ∷ es),
          rw kept,
          Runs-since last (b.next_event_id - suc (length es)) (b.next_event_id - 1 - last) (e ∷ es)
              runs (omega arith) (omega arith),
        )
