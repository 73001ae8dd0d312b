-- ===== src/Tests/Queues.antt =====
-- Runs of the matchmaking queue.
use agent_poker.Base.{ℕ, ◌≡◌, ◌⊎◌, refl, [], ◌∷◌, ok, arith}
use agent_poker.Lobby.Matchmaking.{
  MatchmakingQueue, QueueEntry, low, try_match, enqueue, group_from, match_first, match_out,
  dequeue, dequeue_all,
}
use agent_poker.Lobby.Matchmaking.Matches.{AllWait, Matched, try_match-Matched}
use agent_poker.Lobby.Matchmaking.Waiting.{Waiting, enqueue-Waiting}

abbrev entry : ℕ → ℕ → QueueEntry
entry id variant = record {
  agent_id = id;
  variant = variant;
  blind_level = low;
  max_seats = 6;
  enqueued_at = 5;
}

-- Two of three agents want the same game.
abbrev three_wait : MatchmakingQueue
three_wait = record {
  queue = entry 10 1 ∷ entry 11 2 ∷ entry 12 1 ∷ [];
  min_players = 2;
  bot_fill_timeout_ms = 0;
  found = [];
}

try_match-Matched_example :
    ((try_match three_wait ≡ three_wait) × AllWait three_wait)
    ⊎ Matched three_wait (try_match three_wait)
try_match-Matched_example = try_match-Matched three_wait (refl, (refl, (refl, tt)))

abbrev one_waits : MatchmakingQueue
one_waits = record three_wait { queue = entry 11 2 ∷ [] }

abbrev matched : MatchmakingQueue
matched = record three_wait { queue = []; found = (entry 11 2 ∷ entry 12 2 ∷ []) ∷ [] }

joins : enqueue 12 2 low 6 5 one_waits ≡ ok matched
unfolding enqueue try_match group_from match_first match_out dequeue_all dequeue
joins = refl

enqueue-Waiting_example : Waiting matched
enqueue-Waiting_example =
    enqueue-Waiting 12 2 low 6 5 one_waits
      (record { agents = (refl, tt); small = λ k. ground arith }) joins
