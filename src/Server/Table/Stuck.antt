-- ===== src/Server/Table/Stuck.antt =====
-- apps/game-server/src/table-actor.ts: a dealer who has left, and an agent who has come back.
use agent_poker.Base.{
  ℕ, ◌+◌, ◌≡◌, refl, sym, ap, ◌∙◌, subst, List, [], ◌∷◌, ◌++◌, map, filter_by, update_by, length,
  includes, index_of, sort, includes-sort, arith, true, false, ◌||◌, ◌==◌, ltb, none, Result, ok,
  err, Bool-cases, inl, inr, Ensures, Ensures-then, Ensures-if,
}
use agent_poker.Poker.Types.{
  Card, GameState, GameConfig, PlayerState, PlayerSetup, EngineError, bad_player_count,
}
use agent_poker.Poker.Deck.{seeded_rng}
use agent_poker.Poker.Positions.{get_blind_seats, sorted_seats_from}
use agent_poker.Poker.Engine.Create.{create_initial_state, open_hand, deal_holes}
use agent_poker.Server.Table.{
  TableActor, SeatInfo, engine, can_start_hand, active_seats, setup_of, dealer_of, of_agent,
}
use agent_poker.Server.Table.Hand.{
  start_hand, prepared, complete_hand, store_chips, seat_indices, seed_of,
}

index_of-absent : (a : ℕ) (xs : List ℕ) → includes a xs ≡ false → index_of a xs ≡ none
index_of-absent a [] h = refl
index_of-absent a (x ∷ xs) h = ground (arith, index_of-absent a xs)

abbrev Throws : {E A : Type 0} → Result E A → Type 0
Throws m = Ensures (λ _. ⊥) m

-- Without the dealer among the seats there are no blinds.
open_hand-Throws :
    (hand_id : ℕ) (setups : List PlayerSetup) (dealer : ℕ) (deck : List Card) (config : GameConfig)
    → includes dealer (map (λ p. p.seat_index) setups) ≡ false
    → Throws (open_hand hand_id setups dealer deck config)
unfolding open_hand get_blind_seats sorted_seats_from
open_hand-Throws hand_id setups dealer deck config gone =
    let seats = map (λ (p : PlayerSetup). p.seat_index) setups in
    let nowhere : index_of dealer (sort seats) ≡ none =
      index_of-absent dealer (sort seats) (includes-sort dealer seats ∙ gone) in
    Ensures-then (λ _. ⊥) (deal_holes setups deck []) _ λ dealt _. rw nowhere tt

create_initial_state-Throws :
    {S : Type 0} (rng : S → ℕ × S) (hand_id : ℕ) (setups : List PlayerSetup) (dealer : ℕ) (seed : S)
    (config : GameConfig)
    → includes dealer (map (λ p. p.seat_index) setups) ≡ false
    → Throws (create_initial_state rng hand_id setups dealer seed config)
unfolding create_initial_state
create_initial_state-Throws rng hand_id setups dealer seed config gone =
    Ensures-if (λ _. ⊥) (ltb (length setups) 2 || ltb 6 (length setups)) (err bad_player_count) _
      (λ _. tt) λ _. open_hand-Throws hand_id setups dealer _ config gone

thrown : {E A : Type 0} (m : Result E A) → Throws m → (e : E) × (m ≡ err e)
thrown (err e) h = (e, refl)
thrown (ok a) h = absurd h

-- If two players have chips but the dealer's seat is not among the seats of those who play,
-- starting a hand throws an error of the engine, and only the dealer's seat and the counter are
-- written.
pub start_hand-stuck :
    (a : TableActor)
    → can_start_hand a ≡ true
    → includes (dealer_of a) (seat_indices (active_seats a)) ≡ false
    → (x : EngineError) × (start_hand a ≡ (prepared a, err (engine x)))
unfolding start_hand
start_hand-stuck a enough gone =
    let (x, refused) =
      thrown
        (create_initial_state seeded_rng (a.hands_played + 1) (map setup_of (active_seats a))
          (dealer_of a) (seed_of a) a.config)
        (create_initial_state-Throws seeded_rng _ (map setup_of (active_seats a)) (dealer_of a) _ _
          (ap (includes (dealer_of a)) (seats_of (active_seats a)) ∙ gone)) in
    (x, rw (enough, refused) refl)
  where
    seats_of :
        (seats : List SeatInfo)
        → map (λ (p : PlayerSetup). p.seat_index) (map setup_of seats) ≡ seat_indices seats
    seats_of [] = refl
    seats_of (s ∷ ss) = ap (λ l. s.seat_index ∷ l) (seats_of ss)

-- Seats with an entry of an agent, and what stands behind it.
record Behind (id : ℕ) (rest seats : List SeatInfo) : Type 0 where
  front : List SeatInfo
  entry : SeatInfo
  behind : List SeatInfo
  split : seats ≡ front ++ entry ∷ behind
  own : entry.agent_id ≡ id
  kept : filter_by (of_agent id) behind ≡ filter_by (of_agent id) rest

abbrev paid : ℕ → SeatInfo → SeatInfo
paid n s = record s { chips = n }

paid-others :
    (id k n : ℕ) (seats : List SeatInfo)
    → (k == id) ≡ false
    → filter_by (of_agent id) (update_by (of_agent k) (paid n) seats)
      ≡ filter_by (of_agent id) seats
paid-others id k n [] d = refl
paid-others id k n (s ∷ ss) d = ground (arith, paid-others id k n ss)

paid-Behind :
    (id k n : ℕ) (front : List SeatInfo) (entry : SeatInfo) (rest : List SeatInfo)
    → entry.agent_id ≡ id
    → Behind id rest (update_by (of_agent k) (paid n) (front ++ entry ∷ rest))
paid-Behind id k n [] entry rest own = elim (Bool-cases (entry.agent_id == k)) [
  | inl here ↦ record {
    front = [];
    entry = paid n entry;
    behind = rest;
    split = rw here refl;
    own = own;
    kept = refl;
  }
  | inr other ↦ record {
    front = [];
    entry = entry;
    behind = update_by (of_agent k) (paid n) rest;
    split = rw other refl;
    own = own;
    kept = paid-others id k n rest (ground arith);
  }
]
paid-Behind id k n (s ∷ ss) entry rest own = elim (Bool-cases (s.agent_id == k)) [
  | inl here ↦ record {
    front = paid n s ∷ ss;
    entry = entry;
    behind = rest;
    split = rw here refl;
    own = own;
    kept = refl;
  }
  | inr other ↦
      let later = paid-Behind id k n ss entry rest own in
      record {
        front = s ∷ later.front;
        entry = later.entry;
        behind = later.behind;
        split = rw other (ap (λ l. s ∷ l) later.split);
        own = later.own;
        kept = later.kept;
      }
]

store_chips-Behind :
    (id : ℕ) (ps : List PlayerState) (rest seats : List SeatInfo)
    → Behind id rest seats
    → Behind id rest (store_chips ps seats)
store_chips-Behind id [] rest seats h = h
store_chips-Behind id (p ∷ ps) rest seats h =
    let first =
      subst (λ l. Behind id h.behind (update_by (of_agent p.id) (paid p.chips) l)) (sym h.split)
        (paid-Behind id p.id p.chips h.front h.entry h.behind h.own) in
    store_chips-Behind id ps rest (update_by (of_agent p.id) (paid p.chips) seats) (record {
      front = first.front;
      entry = first.entry;
      behind = first.behind;
      split = first.split;
      own = first.own;
      kept = first.kept ∙ h.kept;
    })

-- Whatever entry of an agent stands in the list of seats, the end of a hand leaves an entry of
-- that agent in the list, with the agent's later entries behind it as they were.
pub complete_hand-rejoined :
    (s : GameState) (a : TableActor) (front : List SeatInfo) (entry : SeatInfo)
    (rest : List SeatInfo)
    → a.seats ≡ front ++ entry ∷ rest
    → (before : List SeatInfo) × (first : SeatInfo) × (after : List SeatInfo) × ((complete_hand s
          a).seats
        ≡ before ++ first ∷ after)
      × (first.agent_id ≡ entry.agent_id)
      × (filter_by (of_agent entry.agent_id) after ≡ filter_by (of_agent entry.agent_id) rest)
unfolding complete_hand
complete_hand-rejoined s a front entry rest split =
    let h = store_chips-Behind entry.agent_id s.players rest a.seats (record {
      front = front;
      entry = entry;
      behind = rest;
      split = split;
      own = refl;
      kept = refl;
    }) in
    (h.front, h.entry, h.behind, h.split, h.own, h.kept)
