-- ===== src/Lobby/Matchmaking/Waiting.antt =====
-- apps/lobby-api/src/matchmaking.ts: who is left to wait.
use agent_poker.Base.{
  ℕ, zero, suc, ◌+◌, ◌≤◌, ◌<◌, ◌≡◌, refl, sym, ap, ◌∙◌, subst, List, [], ◌∷◌, ◌++◌, length,
  length-append, take, any, includes, All, Bool-cases, inl, inr, arith, true, false, ◌==◌, ok,
  ok_inj, ==_refl,
}
use agent_poker.Base.Laws.{Distinct, All-map}
use agent_poker.Lobby.Matchmaking.{
  BlindLevel, Key, QueueEntry, MatchmakingQueue, key_of, key_eq, has_key, of_agent, try_match,
  enqueue, dequeue,
}
use agent_poker.Lobby.Matchmaking.Groups.{of_key, of_key-snoc}
use agent_poker.Lobby.Matchmaking.Matches.{
  ids_of, without, AllWait, of_key-like, try_match-Matched, Distinct-without, dequeue-queue,
  remove_first-without,
}

-- Nobody is in the queue twice, and nobody waits with enough others for a match.
pub record Waiting (q : MatchmakingQueue) : Type 0 where
  pub agents : Distinct (ids_of q.queue)
  pub small : (k : Key) → length (of_key k q.queue) < q.min_players

take-all : {A : Type 0} (n : ℕ) (xs : List A) → length xs ≤ n → take n xs ≡ xs
take-all zero [] h = refl
take-all zero (x ∷ xs) h = absurd (omega arith)
take-all (suc n) [] h = refl
take-all (suc n) (x ∷ xs) h = ap (λ l. x ∷ l) (take-all n xs (omega arith))

-- Without the agents of a key its group is empty.
nobody_left :
    (k : Key) (ids : List ℕ) (es : List QueueEntry)
    → All (λ e. has_key k e ≡ true → includes e.agent_id ids ≡ true) es
    → of_key k (without ids es) ≡ []
nobody_left k ids [] h = refl
nobody_left k ids (e ∷ es) h = ground (arith, nobody_left k ids es h.1, h.0)

own_group :
    (k : Key) (es : List QueueEntry)
    → All (λ e. has_key k e ≡ true → includes e.agent_id (ids_of (of_key k es)) ≡ true) es
own_group k [] = tt
own_group k (e ∷ es) = (
  λ own. rw own (rw (==_refl e.agent_id) refl),
  All-map (λ x. has_key k x ≡ true → includes x.agent_id (ids_of (of_key k es)) ≡ true) _
      (λ x h own. more x (h own)) es (own_group k es),
)
  where
    more :
        (x : QueueEntry)
        → includes x.agent_id (ids_of (of_key k es)) ≡ true
        → includes x.agent_id (ids_of (of_key k (e ∷ es))) ≡ true
    more x h = ground arith

length-without :
    (k : Key) (ids : List ℕ) (es : List QueueEntry)
    → length (of_key k (without ids es)) ≤ length (of_key k es)
length-without k ids [] = omega arith
length-without k ids (e ∷ es) = ground (arith, length-without k ids es)

Distinct-snoc :
    (e : QueueEntry) (es : List QueueEntry)
    → any (of_agent e.agent_id) es ≡ false
    → Distinct (ids_of es)
    → Distinct (ids_of (es ++ e ∷ []))
Distinct-snoc e [] h d = (refl, tt)
Distinct-snoc e (x ∷ xs) h d = ground (arith, Distinct-snoc e xs, later xs)
  where
    later :
        (ys : List QueueEntry)
        → includes x.agent_id (ids_of ys) ≡ false
        → (x.agent_id == e.agent_id) ≡ false
        → includes x.agent_id (ids_of (ys ++ e ∷ [])) ≡ false
    later [] g f = ground arith
    later (y ∷ ys) g f = ground (arith, later ys)

own_small :
    (e : QueueEntry) (q : MatchmakingQueue)
    → AllWait (record q { queue = q.queue ++ e ∷ [] })
    → length (of_key (key_of e) (q.queue ++ e ∷ [])) < q.min_players
own_small e q h =
    last q.queue (λ x. length (of_key (key_of x) (q.queue ++ e ∷ [])) < q.min_players) h
  where
    last : (es : List QueueEntry) (P : QueueEntry → Type 0) → All P (es ++ e ∷ []) → P e
    last [] P h = h.0
    last (x ∷ xs) P h = last xs P h.1

snoc_own :
    (k : Key) (es : List QueueEntry) (e : QueueEntry)
    → has_key k e ≡ true
    → length (of_key k (es ++ e ∷ [])) ≡ length (of_key k es) + 1
snoc_own k es e own = ap length (of_key-snoc k es e) ∙ rw own (length-append (of_key k es) (e ∷ []))

snoc_other :
    (k : Key) (es : List QueueEntry) (e : QueueEntry)
    → has_key k e ≡ false
    → length (of_key k (es ++ e ∷ [])) ≡ length (of_key k es)
snoc_other k es e other = ap length (of_key-snoc k es e) ∙ rw other refl

keys_meet : (a b c : Key) → key_eq a c ≡ true → key_eq b c ≡ true → key_eq a b ≡ true
keys_meet a b c h k = ground arith

module _ (e : QueueEntry) (q : MatchmakingQueue) (h : Waiting q) where
  abbrev pushed : MatchmakingQueue
  pushed = record q { queue = q.queue ++ e ∷ [] }

  others_small : (k : Key) → has_key k e ≡ false → length (of_key k pushed.queue) < q.min_players
  others_small k other = omega (arith, h.small k, snoc_other k q.queue e other)

  own_most : (k : Key) → length (of_key k pushed.queue) ≤ q.min_players
  own_most k = elim (Bool-cases (has_key k e)) [
    | inl own ↦ omega (arith, h.small k, snoc_own k q.queue e own)
    | inr other ↦ omega (arith, others_small k other)
  ]

  unmatched_small : AllWait pushed → (k : Key) → length (of_key k pushed.queue) < q.min_players
  unmatched_small wait k = elim (Bool-cases (has_key k e)) [
    | inl own ↦
        omega (arith, own_small e q wait, ap length (of_key-like k (key_of e) pushed.queue own))
    | inr other ↦ others_small k other
  ]

  matched_small :
      (key k : Key)
      → q.min_players ≤ length (of_key key pushed.queue)
      → length (of_key k (without (ids_of (of_key key pushed.queue)) pushed.queue)) < q.min_players
  matched_small key k enough = elim (Bool-cases (has_key k e)) [
    | inr other ↦ omega (
      arith,
      others_small k other,
      length-without k (ids_of (of_key key pushed.queue)) pushed.queue,
    )
    | inl own ↦ elim (Bool-cases (has_key key e)) [
      | inr other ↦ absurd (omega (arith, others_small key other))
      | inl same ↦
          let ids = ids_of (of_key key pushed.queue) in
          let none_left : of_key k (without ids pushed.queue) ≡ [] =
            of_key-like k key (without ids pushed.queue) (keys_meet k key (key_of e) own same)
            ∙ nobody_left key ids pushed.queue (own_group key pushed.queue) in
          omega (arith, h.small k, ap length none_left)
    ]
  ]

  try_match-Waiting : any (of_agent e.agent_id) q.queue ≡ false → Waiting (try_match pushed)
  try_match-Waiting new =
      let distinct = Distinct-snoc e q.queue new h.agents in
      elim (try_match-Matched pushed distinct) [
        | inl (same, wait) ↦
            subst Waiting (sym same) (record { agents = distinct; small = unmatched_small wait })
        | inr m ↦
            let all_taken : take q.min_players (of_key m.key pushed.queue)
                ≡ of_key m.key pushed.queue =
              take-all q.min_players (of_key m.key pushed.queue) (own_most m.key) in
            subst Waiting (sym m.told) (
              subst
                (λ l.
                  Waiting (record q {
                    queue = without (ids_of l) pushed.queue;
                    found = q.found ++ l ∷ [];
                  }))
                (sym all_taken)
                (record {
                  agents = Distinct-without _ pushed.queue distinct;
                  small = λ k. matched_small m.key k m.enough;
                }))
      ]

-- If no agent is in the queue twice and for every key fewer wait than a table needs, then the same
-- holds after an agent has joined.
pub enqueue-Waiting :
    (id variant : ℕ) (level : BlindLevel) (max_seats now : ℕ) (q : MatchmakingQueue)
    {after : MatchmakingQueue}
    → Waiting q
    → enqueue id variant level max_seats now q ≡ ok after
    → Waiting after
unfolding enqueue
enqueue-Waiting id variant level max_seats now q h e =
    elim (Bool-cases (any (of_agent id) q.queue)) [
      | inl already ↦ cc (rw already at e)
      | inr new ↦ subst Waiting (ok_inj (rw new at e)) (
          try_match-Waiting
            (record {
              agent_id = id;
              variant = variant;
              blind_level = level;
              max_seats = max_seats;
              enqueued_at = now;
            })
            q h new)
    ]

gone : (id : ℕ) (es : List QueueEntry) → any (of_agent id) (without (id ∷ []) es) ≡ false
gone id [] = refl
gone id (e ∷ es) = ground (arith, gone id es)

dequeue-result : (id : ℕ) (q : MatchmakingQueue) → (dequeue id q).1 ≡ any (of_agent id) q.queue
unfolding dequeue
dequeue-result id q = ground arith

-- An agent who leaves.
pub dequeue-Waiting :
    (id : ℕ) (q : MatchmakingQueue)
    → Waiting q
    → Waiting (dequeue id q).0
      × (any (of_agent id) (dequeue id q).0.queue ≡ false)
      × ((dequeue id q).1 ≡ any (of_agent id) q.queue)
dequeue-Waiting id q h =
    let out : (dequeue id q).0 ≡ record q { queue = without (id ∷ []) q.queue } =
      dequeue-queue id q
      ∙ ap (λ l. record q { queue = l }) (remove_first-without id q.queue h.agents) in
    (
      subst Waiting (sym out) (record {
        agents = Distinct-without (id ∷ []) q.queue h.agents;
        small = λ k. omega (arith, h.small k, length-without k (id ∷ []) q.queue);
      }),
      ap (λ (l : MatchmakingQueue). any (of_agent id) l.queue) out ∙ gone id q.queue,
      dequeue-result id q,
    )
