-- ===== src/Lobby/Matchmaking/Matches.antt =====
-- apps/lobby-api/src/matchmaking.ts: what leaves the queue in a match.
use agent_poker.Base.{
  ℕ, ◌≤◌, ◌<◌, ◌≡◌, refl, sym, ap, ◌∙◌, List, [], ◌∷◌, ◌++◌, map, filter_by, length, take, any,
  includes, All, Bool-cases, inl, inr, ◌⊎◌, arith, true, false, not, ◌==◌, leb, ltb,
}
use agent_poker.Base.Laws.{Distinct, All-map}
use agent_poker.Lobby.Matchmaking.{
  Key, QueueEntry, MatchmakingQueue, Groups, key_of, key_eq, has_key, of_agent, remove_first,
  dequeue, dequeue_all, match_out, match_first, try_match, group_from,
}
use agent_poker.Lobby.Matchmaking.Groups.{of_key, AreOf, in_groups, groups-Grouped}

abbrev pub ids_of : List QueueEntry → List ℕ
ids_of es = map (λ (e : QueueEntry). e.agent_id) es

-- The entries of other agents.
abbrev pub without : List ℕ → List QueueEntry → List QueueEntry
without ids es = filter_by (λ (e : QueueEntry). not (includes e.agent_id ids)) es

absent :
    (id : ℕ) (es : List QueueEntry) → includes id (ids_of es) ≡ false → without (id ∷ []) es ≡ es
absent id [] h = refl
absent id (e ∷ es) h = ground (arith, absent id es)

pub remove_first-without :
    (id : ℕ) (es : List QueueEntry)
    → Distinct (ids_of es)
    → remove_first id es ≡ without (id ∷ []) es
remove_first-without id [] d = refl
remove_first-without id (e ∷ es) d = elim (Bool-cases (e.agent_id == id)) [
  | inl here ↦
      let same : e.agent_id ≡ id = ground arith in
      let gone = absent id es (ap (λ n. includes n (ids_of es)) (sym same) ∙ d.0) in
      ground (arith, gone)
  | inr other ↦ ground (arith, remove_first-without id es d.1)
]

remove_first-absent :
    (id : ℕ) (es : List QueueEntry) → any (of_agent id) es ≡ false → remove_first id es ≡ es
remove_first-absent id [] h = refl
remove_first-absent id (e ∷ es) h = ground (arith, remove_first-absent id es)

abbrev with_queue : MatchmakingQueue → List QueueEntry → MatchmakingQueue
with_queue q es = record q { queue = es }

pub dequeue-queue :
    (id : ℕ) (q : MatchmakingQueue) → (dequeue id q).0 ≡ with_queue q (remove_first id q.queue)
unfolding dequeue
dequeue-queue id q = elim (Bool-cases (any (of_agent id) q.queue)) [
  | inl here ↦ rw here refl
  | inr gone ↦ rw gone (ap (with_queue q) (sym (remove_first-absent id q.queue gone)))
]

includes-without :
    (k : ℕ) (ids : List ℕ) (es : List QueueEntry)
    → includes k (ids_of es) ≡ false
    → includes k (ids_of (without ids es)) ≡ false
includes-without k ids [] h = refl
includes-without k ids (e ∷ es) h = ground (arith, includes-without k ids es)

pub Distinct-without :
    (ids : List ℕ) (es : List QueueEntry)
    → Distinct (ids_of es)
    → Distinct (ids_of (without ids es))
Distinct-without ids [] d = tt
Distinct-without ids (e ∷ es) d =
    ground (arith, Distinct-without ids es, includes-without e.agent_id ids es)

without-cons :
    (id : ℕ) (ids : List ℕ) (es : List QueueEntry)
    → without ids (without (id ∷ []) es) ≡ without (id ∷ ids) es
without-cons id ids [] = refl
without-cons id ids (e ∷ es) = ground (arith, without-cons id ids es)

-- Among distinct agents the entries that leave are those of the agents named.
dequeue_all-queue :
    (ms : List QueueEntry) (q : MatchmakingQueue)
    → Distinct (ids_of q.queue)
    → dequeue_all ms q ≡ with_queue q (without (ids_of ms) q.queue)
unfolding dequeue_all
dequeue_all-queue [] q d = ap (with_queue q) (sym (without-none q.queue))
  where
    without-none : (es : List QueueEntry) → without [] es ≡ es
    without-none [] = refl
    without-none (e ∷ es) = ap (λ l. e ∷ l) (without-none es)
dequeue_all-queue (m ∷ ms) q d =
    let one : (dequeue m.agent_id q).0 ≡ with_queue q (without (m.agent_id ∷ []) q.queue) =
      dequeue-queue m.agent_id q ∙ ap (with_queue q) (remove_first-without m.agent_id q.queue d) in
    ap (dequeue_all ms) one
    ∙ dequeue_all-queue ms (with_queue q (without (m.agent_id ∷ []) q.queue))
        (Distinct-without (m.agent_id ∷ []) q.queue d)
    ∙ ap (with_queue q) (without-cons m.agent_id (ids_of ms) q.queue)

-- A match: the first entries of a key, as many as a table needs.
pub record Matched (q after : MatchmakingQueue) : Type 0 where
  pub key : Key
  pub enough : q.min_players ≤ length (of_key key q.queue)
  pub told : after ≡ record q {
    queue = without (ids_of (take q.min_players (of_key key q.queue))) q.queue;
    found = q.found ++ take q.min_players (of_key key q.queue) ∷ [];
  }

abbrev Small : MatchmakingQueue → Groups → Type 0
Small q gs = All (λ (g : Key × List QueueEntry). length g.1 < q.min_players) gs

match_out-told :
    (ms : List QueueEntry) (q : MatchmakingQueue)
    → Distinct (ids_of q.queue)
    → match_out ms q ≡ record q { queue = without (ids_of ms) q.queue; found = q.found ++ ms ∷ [] }
unfolding match_out
match_out-told ms q d =
    ap (λ (l : MatchmakingQueue). record l { found = l.found ++ ms ∷ [] })
      (dequeue_all-queue ms q d)

match_first-Matched :
    (gs : Groups) (q : MatchmakingQueue)
    → Distinct (ids_of q.queue)
    → AreOf q.queue gs
    → ((match_first gs q ≡ q) × Small q gs) ⊎ Matched q (match_first gs q)
unfolding match_first
match_first-Matched [] q d h = inl (refl, tt)
match_first-Matched ((k, es) ∷ gs) q d h = elim (Bool-cases (leb q.min_players (length es))) [
  | inl enough ↦ rw enough (
      inr (record {
        key = k;
        enough = ground (arith, ap length h.0);
        told =
            match_out-told (take q.min_players es) q d
            ∙ ap
                (λ l. record q {
                  queue = without (ids_of (take q.min_players l)) q.queue;
                  found = q.found ++ take q.min_players l ∷ [];
                })
                h.0;
      }))
  | inr few ↦ rw few (elim (match_first-Matched gs q d h.1) [
    | inl (same, small) ↦ inl (same, (ground arith, small))
    | inr matched ↦ inr matched
  ])
]

-- Keys that are equal have the same entries.
pub of_key-like : (a b : Key) (es : List QueueEntry) → key_eq a b ≡ true → of_key a es ≡ of_key b es
of_key-like a b [] h = refl
of_key-like a b (e ∷ es) h = ground (arith, of_key-like a b es h)

too_few :
    (q : MatchmakingQueue) (gs : Groups) (e : QueueEntry)
    → AreOf q.queue gs
    → Small q gs
    → in_groups gs e ≡ true
    → length (of_key (key_of e) q.queue) < q.min_players
too_few q [] e h small c = cc
too_few q ((k, es) ∷ gs) e h small c = elim (Bool-cases (has_key k e)) [
  | inl own ↦
      omega (arith, ap length h.0, ap length (of_key-like k (key_of e) q.queue own), small.0)
  | inr other ↦ too_few q gs e h.1 small.1 (rw other at c)
]

length-of_key : (k : Key) (es : List QueueEntry) → length (of_key k es) ≤ length es
length-of_key k [] = omega arith
length-of_key k (e ∷ es) = ground (arith, length-of_key k es)

-- Every group is too small for a match.
abbrev pub AllWait : MatchmakingQueue → Type 0
AllWait q = All (λ e. length (of_key (key_of e) q.queue) < q.min_players) q.queue

every : (P : QueueEntry → Type 0) (es : List QueueEntry) → ((e : QueueEntry) → P e) → All P es
every P [] h = tt
every P (e ∷ es) h = (h e, every P es h)

-- In a queue of distinct agents, either the attempt changes nothing and for each entry fewer wait
-- with its key than a table needs, or there is a key for which enough wait, the first of them in
-- order, as many as a table needs, are told as a match, and exactly the entries of these agents
-- leave the queue, the others keeping their order.
pub try_match-Matched :
    (q : MatchmakingQueue)
    → Distinct (ids_of q.queue)
    → ((try_match q ≡ q) × AllWait q) ⊎ Matched q (try_match q)
unfolding try_match
try_match-Matched q d = elim (Bool-cases (ltb (length q.queue) q.min_players)) [
  | inl few ↦
      rw few (inl (refl, every _ q.queue λ e. ground (arith, length-of_key (key_of e) q.queue)))
  | inr many ↦ rw many (
      let h = groups-Grouped q.queue in
      elim (match_first-Matched (group_from [] q.queue) q d h.each) [
        | inl (same, small) ↦ inl (
          same,
          All-map _ _ (λ e c. too_few q (group_from [] q.queue) e h.each small c) q.queue h.cover,
        )
        | inr matched ↦ inr matched
      ])
]
