-- ===== src/Lobby/Matchmaking.antt =====
-- apps/lobby-api/src/matchmaking.ts: agents wait in a queue and are matched in groups. Agents and
-- variants are only compared, so they are numbers; a key `variant:level:seats` is its three parts,
-- the last two of which hold no colon. What `onMatchFound` is given is collected in `found`, in
-- order; it does not call the queue. `now` is `Date.now()`.
use agent_poker.Base.{
  ℕ, zero, suc, ◌+◌, ◌-◌, ◌*◌, List, [], ◌∷◌, ◌++◌, map, filter_by, find_by, length, take, any,
  Option, none, some, Bool, true, false, not, ◌&&◌, ◌==◌, ltb, leb, if◌then◌else◌, Result, ok, err,
}
pub mod Groups
pub mod Matches
pub mod Waiting

pub data BlindLevel : Type 0 where
  micro low mid high : BlindLevel

pub record Blinds : Type 0 where
  pub small_blind : ℕ
  pub big_blind : ℕ

-- `BLIND_CONFIGS`
abbrev pub blind_configs : BlindLevel → Blinds
blind_configs micro = record { small_blind = 1; big_blind = 2 }
blind_configs low = record { small_blind = 5; big_blind = 10 }
blind_configs mid = record { small_blind = 25; big_blind = 50 }
blind_configs high = record { small_blind = 100; big_blind = 200 }

-- The levels are told apart by their number.
abbrev pub level_number : BlindLevel → ℕ
level_number micro = 0
level_number low = 1
level_number mid = 2
level_number high = 3

pub record Key : Type 0 where
  pub variant : ℕ
  pub level : ℕ
  pub seats : ℕ

pub record QueueEntry : Type 0 where
  pub agent_id : ℕ
  pub variant : ℕ
  pub blind_level : BlindLevel
  pub max_seats : ℕ
  pub enqueued_at : ℕ

pub record MatchmakingQueue : Type 0 where
  pub queue : List QueueEntry
  pub min_players : ℕ
  pub bot_fill_timeout_ms : ℕ
  pub found : List (List QueueEntry)

pub data QueueError : Type 0 where
  already_in_queue : QueueError

abbrev pub new_queue : ℕ → ℕ → MatchmakingQueue
new_queue min_players timeout = record {
  queue = [];
  min_players = min_players;
  bot_fill_timeout_ms = timeout;
  found = [];
}

abbrev pub key_of : QueueEntry → Key
key_of e = record { variant = e.variant; level = level_number e.blind_level; seats = e.max_seats }

abbrev pub key_eq : Key → Key → Bool
key_eq a b = (a.variant == b.variant) && (a.level == b.level) && (a.seats == b.seats)

abbrev pub has_key : Key → QueueEntry → Bool
has_key k e = key_eq k (key_of e)

abbrev pub of_agent : ℕ → QueueEntry → Bool
of_agent id e = e.agent_id == id

-- `splice` at the index that `findIndex` returns.
abbrev pub remove_first : ℕ → List QueueEntry → List QueueEntry
remove_first id [] = []
remove_first id (e ∷ es) = if e.agent_id == id then es else e ∷ remove_first id es

unfoldable pub dequeue : ℕ → MatchmakingQueue → MatchmakingQueue × Bool
dequeue id q =
    if any (of_agent id) q.queue
    then (record q { queue = remove_first id q.queue }, true)
    else (q, false)

-- `groups`, a map in insertion order.
abbrev pub Groups : Type 0
Groups = List (Key × List QueueEntry)

abbrev pub push_group : QueueEntry → Groups → Groups
push_group e [] = (key_of e, e ∷ []) ∷ []
push_group e ((k, es) ∷ gs) =
    if has_key k e then (k, es ++ e ∷ []) ∷ gs else (k, es) ∷ push_group e gs

unfoldable pub group_from : Groups → List QueueEntry → Groups
group_from gs [] = gs
group_from gs (e ∷ es) = group_from (push_group e gs) es

-- `for (const m of matched) this.dequeue(m.agentId)`
unfoldable pub dequeue_all : List QueueEntry → MatchmakingQueue → MatchmakingQueue
unfolding dequeue
dequeue_all [] q = q
dequeue_all (m ∷ ms) q = dequeue_all ms (dequeue m.agent_id q).0

-- The entries leave the queue and are told.
unfoldable pub match_out : List QueueEntry → MatchmakingQueue → MatchmakingQueue
unfolding dequeue_all
match_out matched q =
    let left = dequeue_all matched q in record left { found = left.found ++ matched ∷ [] }

unfoldable pub match_first : Groups → MatchmakingQueue → MatchmakingQueue
unfolding match_out
match_first [] q = q
match_first ((k, es) ∷ gs) q =
    if leb q.min_players (length es) then match_out (take q.min_players es) q else match_first gs q

unfoldable pub try_match : MatchmakingQueue → MatchmakingQueue
unfolding match_first group_from
try_match q =
    if ltb (length q.queue) q.min_players then q else match_first (group_from [] q.queue) q

unfoldable pub enqueue :
    ℕ → ℕ → BlindLevel → ℕ → ℕ → MatchmakingQueue → Result QueueError MatchmakingQueue
unfolding try_match
enqueue id variant level max_seats now q =
    if any (of_agent id) q.queue
    then err already_in_queue
    else let entry : QueueEntry = record {
      agent_id = id;
      variant = variant;
      blind_level = level;
      max_seats = max_seats;
      enqueued_at = now;
    } in
      ok (try_match (record q { queue = q.queue ++ entry ∷ [] }))

pub record QueueStatus : Type 0 where
  pub position : ℕ
  pub estimated_wait_ms : ℕ

-- The position in the queue, and the wait; both sides of the difference are kept positive.
abbrev pub status_from : ℕ → ℕ → ℕ → ℕ → List QueueEntry → Option QueueStatus
status_from position id min_players now [] = none
status_from position id min_players now (e ∷ es) =
    if e.agent_id == id
    then some (record {
      position = position;
      estimated_wait_ms = (position * 30000 + e.enqueued_at) - (min_players * 30000 + now);
    })
    else status_from (position + 1) id min_players now es

unfoldable pub get_status : ℕ → ℕ → MatchmakingQueue → Option QueueStatus
get_status id now q = status_from 1 id q.min_players now q.queue

-- The groups that have waited long enough, whatever their size.
unfoldable pub force_groups : ℕ → Groups → MatchmakingQueue → MatchmakingQueue
unfolding match_out
force_groups now [] q = q
force_groups now ((k, []) ∷ gs) q = force_groups now gs q
force_groups now ((k, oldest ∷ es) ∷ gs) q = force_groups now gs (
    if ltb now (oldest.enqueued_at + q.bot_fill_timeout_ms)
    then q
    else match_out (take oldest.max_seats (oldest ∷ es)) q)

unfoldable pub try_forced_match : ℕ → MatchmakingQueue → MatchmakingQueue
unfolding force_groups group_from
try_forced_match now q =
    if length q.queue == 0 then q else force_groups now (group_from [] q.queue) q
