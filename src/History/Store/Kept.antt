-- ===== src/History/Store/Kept.antt =====
-- packages/hand-history/src/memory-store.ts: which events the store keeps.
use agent_poker.Base.Append.{append_nil}
use agent_poker.Base.{
  ℕ, ◌+◌, ◌<◌, ◌≡◌, ◌≢◌, refl, sym, ap, ◌∙◌, true, ◌||◌, List, [], ◌∷◌, ◌++◌, includes, ◌==◌,
  if◌then◌else◌, All, arith, subst, Bool-cases, inl, inr, sort_by, length, range_from, ok, ==_refl,
}
use agent_poker.Base.Laws.{All-map}
use agent_poker.Base.Keys.{by_key, IsSortedBy, sort_by-IsSortedBy, sort_by-sorted, includes-sort_by}
use agent_poker.Poker.Types.{GameEvent, GameState, PlayerAction}
use agent_poker.Poker.Engine.Apply.{apply_action}
use agent_poker.Poker.Engine.Accepted.{apply_action-Accepted}
use agent_poker.History.Store.{
  seq_of, MemoryHandHistoryStore, seqs, get_events, set_events, new_events, merge, append_events,
}

get-set :
    (h k : ℕ) (events : List GameEvent) (hands : MemoryHandHistoryStore)
    → get_events k (set_events h events hands) ≡ (if h == k then events else get_events k hands)
get-set h k events [] = refl
get-set h k events ((key, old) ∷ hands) = ground (arith, get-set h k events hands)

set-set :
    (h : ℕ) (a b : List GameEvent) (hands : MemoryHandHistoryStore)
    → set_events h b (set_events h a hands) ≡ set_events h b hands
set-set h a b [] = rw ==_refl refl
set-set h a b ((key, old) ∷ hands) = ground (arith, set-set h a b hands)

includes-append :
    (k : ℕ) (xs ys : List GameEvent)
    → includes k (seqs (xs ++ ys)) ≡ (includes k (seqs xs) || includes k (seqs ys))
includes-append k [] ys = refl
includes-append k (x ∷ xs) ys = ground (arith, includes-append k xs ys)

-- Dropping what is there already leaves no number out.
includes-new_events :
    (k : ℕ) (existing events : List GameEvent)
    → (includes k (seqs existing) || includes k (seqs (new_events existing events)))
      ≡ (includes k (seqs existing) || includes k (seqs events))
includes-new_events k existing [] = refl
includes-new_events k existing (e ∷ es) = elim (Bool-cases (e.seq == k)) [
  | inl same ↦
      let is_k : e.seq ≡ k = ground arith in
      ground (arith, includes-new_events k existing es, ap (λ n. includes n (seqs existing)) is_k)
  | inr other ↦ ground (arith, includes-new_events k existing es)
]

pub includes-merge :
    (k : ℕ) (existing events : List GameEvent)
    → includes k (seqs (merge existing events))
      ≡ (includes k (seqs existing) || includes k (seqs events))
unfolding merge
includes-merge k existing events =
    includes-sort_by seq_of k (existing ++ new_events existing events)
    ∙ includes-append k existing (new_events existing events)
    ∙ includes-new_events k existing events

new_events-none :
    (existing events : List GameEvent)
    → All (λ e. includes e.seq (seqs existing) ≡ true) events
    → new_events existing events ≡ []
new_events-none existing [] h = refl
new_events-none existing (e ∷ es) h = rw (h.0) (new_events-none existing es h.1)

-- Events whose numbers are all taken change nothing.
merge-known :
    (existing events : List GameEvent)
    → IsSortedBy seq_of existing
    → All (λ e. includes e.seq (seqs existing) ≡ true) events
    → merge existing events ≡ existing
unfolding merge
merge-known existing events sorted h =
    ap (sort_by (by_key seq_of))
      (ap (λ l. existing ++ l) (new_events-none existing events h) ∙ append_nil existing)
    ∙ sort_by-sorted seq_of existing sorted

merge-IsSortedBy : (existing events : List GameEvent) → IsSortedBy seq_of (merge existing events)
unfolding merge
merge-IsSortedBy existing events =
    sort_by-IsSortedBy seq_of (existing ++ new_events existing events)

includes_own : (events : List GameEvent) → All (λ e. includes e.seq (seqs events) ≡ true) events
includes_own [] = tt
includes_own (e ∷ es) = (rw ==_refl refl, All-map _ _ (λ x h. ground arith) es (includes_own es))

merged_all :
    (existing events : List GameEvent)
    → All (λ e. includes e.seq (seqs (merge existing events)) ≡ true) events
merged_all existing events =
    All-map _ _ (λ e h. ground (arith, includes-merge e.seq existing events)) events
      (includes_own events)

-- Appending events that were just appended to the same hand changes nothing.
pub append_events-again :
    (hand_id : ℕ) (events : List GameEvent) (hands : MemoryHandHistoryStore)
    → append_events hand_id events (append_events hand_id events hands)
      ≡ append_events hand_id events hands
unfolding append_events
append_events-again hand_id events hands =
    let merged = merge (get_events hand_id hands) events in
    let found : get_events hand_id (set_events hand_id merged hands) ≡ merged =
      rw (get-set hand_id hand_id merged hands, ==_refl) refl in
    ap (λ l. set_events hand_id (merge l events) (set_events hand_id merged hands)) found
    ∙ ap (λ l. set_events hand_id l (set_events hand_id merged hands))
        (merge-known merged events (merge-IsSortedBy _ events) (merged_all _ events))
    ∙ set-set hand_id merged merged hands

-- After events are appended to a hand, those of any other hand are as before, those of the hand
-- are sorted by number, and a number occurs among them exactly if it occurred before or occurs
-- among the new ones.
pub get_events-append_events :
    (hand_id : ℕ) (events : List GameEvent) (hands : MemoryHandHistoryStore) (k n : ℕ)
    → ((hand_id ≢ k) → get_events k (append_events hand_id events hands) ≡ get_events k hands)
      × IsSortedBy seq_of (get_events hand_id (append_events hand_id events hands))
      × (includes n (seqs (get_events hand_id (append_events hand_id events hands)))
          ≡ (includes n (seqs (get_events hand_id hands)) || includes n (seqs events)))
unfolding append_events
get_events-append_events hand_id events hands k n =
    let merged = merge (get_events hand_id hands) events in
    let found : get_events hand_id (set_events hand_id merged hands) ≡ merged =
      rw (get-set hand_id hand_id merged hands, ==_refl) refl in
    (
      λ other. ground (arith, get-set hand_id k merged hands),
      subst (IsSortedBy seq_of) (sym found) (merge-IsSortedBy _ events),
      ap (λ l. includes n (seqs l)) found ∙ includes-merge n (get_events hand_id hands) events,
    )

known_numbers :
    (existing events : List GameEvent) (start : ℕ)
    → seqs events ≡ range_from start (length events)
    → ((k : ℕ) → k < start + length events → includes k (seqs existing) ≡ true)
    → All (λ e. includes e.seq (seqs existing) ≡ true) events
known_numbers existing [] start h k = tt
known_numbers existing (e ∷ es) start h k =
    let first : e.seq ≡ start = cc in
    let later : seqs es ≡ range_from (start + 1) (length es) = cc in
    (
      ap (λ n. includes n (seqs existing)) first ∙ k start (omega arith),
      known_numbers existing es (start + 1) later λ n less. k n (omega arith),
    )

-- If the stored events of a hand are sorted and have all the numbers below the count of an
-- accepted action's events, then appending the events of that action leaves the stored events of
-- the hand as they are.
pub append_events-Accepted :
    (hand_id : ℕ) (hands : MemoryHandHistoryStore) (s : GameState) (id : ℕ) (action : PlayerAction)
    {t : GameState} {events : List GameEvent}
    → apply_action s id action ≡ ok (t, events)
    → IsSortedBy seq_of (get_events hand_id hands)
    → ((k : ℕ) → k < length events → includes k (seqs (get_events hand_id hands)) ≡ true)
    → get_events hand_id (append_events hand_id events hands) ≡ get_events hand_id hands
unfolding append_events
append_events-Accepted hand_id hands s id action {t} {events} e sorted taken =
    ground (arith, get-set hand_id hand_id (merge (get_events hand_id hands) events) hands)
    ∙ merge-known (get_events hand_id hands) events sorted (
        known_numbers (get_events hand_id hands) events 0 (apply_action-Accepted s id action e).1
          λ k less. taken k (omega arith))
