-- ===== src/Server/Table/Sound.antt =====
-- apps/game-server/src/table-actor.ts: who sits where.
use agent_poker.Base.{
  ℕ, ◌≤◌, ◌<◌, ◌≡◌, refl, sym, subst, ap, ◌∙◌, List, [], ◌∷◌, ◌++◌, map, filter_by, length,
  includes, any, Bool-cases, inl, inr, arith, All, true, false, ◌==◌, leb, ok, ok_inj, length-map,
  length-append,
}
use agent_poker.Base.Laws.{Distinct}
use agent_poker.Server.Table.{TableActor, SeatInfo, sits, sits_as, taken_seats, add_seat, new_seat}
use agent_poker.Server.Table.Seating.{first_free-free}

-- Nobody sits twice, no seat is taken twice, and the seats are within the table.
pub record SeatsSound (max_seats : ℕ) (seats : List SeatInfo) : Type 0 where
  pub agents : Distinct (map (λ s. s.agent_id) (filter_by sits seats))
  pub indices : Distinct (taken_seats seats)
  pub inside : All (λ i. i < max_seats) (taken_seats seats)
  pub room : length (filter_by sits seats) ≤ max_seats

includes-snoc :
    (k n : ℕ) (xs : List ℕ)
    → includes k xs ≡ false
    → (n == k) ≡ false
    → includes k (xs ++ n ∷ []) ≡ false
includes-snoc k n [] h d = ground arith
includes-snoc k n (x ∷ xs) h d = ground (arith, includes-snoc k n xs)

pub Distinct-snoc :
    (n : ℕ) (xs : List ℕ) → Distinct xs → includes n xs ≡ false → Distinct (xs ++ n ∷ [])
Distinct-snoc n [] d h = (refl, tt)
Distinct-snoc n (x ∷ xs) d h =
    (includes-snoc x n xs d.0 (ground arith), Distinct-snoc n xs d.1 (ground arith))

All-snoc : (P : ℕ → Type 0) (n : ℕ) (xs : List ℕ) → All P xs → P n → All P (xs ++ n ∷ [])
All-snoc P n [] h p = (p, tt)
All-snoc P n (x ∷ xs) h p = (h.0, All-snoc P n xs h.1 p)

filter-snoc :
    (seats : List SeatInfo) (s : SeatInfo)
    → sits s ≡ true
    → filter_by sits (seats ++ s ∷ []) ≡ filter_by sits seats ++ s ∷ []
filter-snoc [] s h = rw h refl
filter-snoc (x ∷ xs) s h = ground (arith, filter-snoc xs s h)

map-snoc :
    (key : SeatInfo → ℕ) (seats : List SeatInfo) (s : SeatInfo)
    → map key (seats ++ s ∷ []) ≡ map key seats ++ key s ∷ []
map-snoc key [] s = refl
map-snoc key (x ∷ xs) s = ap (λ l. key x ∷ l) (map-snoc key xs s)

not_seated :
    (id : ℕ) (seats : List SeatInfo)
    → any (sits_as id) seats ≡ false
    → includes id (map (λ s. s.agent_id) (filter_by sits seats)) ≡ false
not_seated id [] h = refl
not_seated id (s ∷ ss) h = ground (arith, not_seated id ss)

-- A new seat of an agent who does not sit at the table.
SeatsSound-snoc :
    (max_seats : ℕ) (seats : List SeatInfo) (s : SeatInfo)
    → SeatsSound max_seats seats
    → sits s ≡ true
    → any (sits_as s.agent_id) seats ≡ false
    → includes s.seat_index (taken_seats seats) ≡ false
    → s.seat_index ≤ length (filter_by sits seats)
    → length (filter_by sits seats) < max_seats
    → SeatsSound max_seats (seats ++ s ∷ [])
SeatsSound-snoc max_seats seats s h sitting new free low room =
    let ours = filter-snoc seats s sitting in
    let indices : taken_seats (seats ++ s ∷ []) ≡ taken_seats seats ++ s.seat_index ∷ [] =
      ap (map (λ (t : SeatInfo). t.seat_index)) ours
      ∙ map-snoc (λ t. t.seat_index) (filter_by sits seats) s in
    record {
      agents =
          subst Distinct
            (sym (
              ap (map (λ (t : SeatInfo). t.agent_id)) ours
              ∙ map-snoc (λ t. t.agent_id) (filter_by sits seats) s))
            (Distinct-snoc s.agent_id _ h.agents (not_seated s.agent_id seats new));
      indices = subst Distinct (sym indices) (Distinct-snoc s.seat_index _ h.indices free);
      inside =
          subst (All (λ i. i < max_seats)) (sym indices)
            (All-snoc (λ i. i < max_seats) s.seat_index _ h.inside (omega arith));
      room = rw (ours) (omega (arith, length-append (filter_by sits seats) (s ∷ [])));
    }

-- An accepted seat.
pub record Seated (a : TableActor) (agent_id token buy_in : ℕ) (after : TableActor)
    (seat : SeatInfo) : Type 0 where
  pub table : after ≡ record a { seats = a.seats ++ seat ∷ [] }
  pub is_new_seat : seat ≡ new_seat agent_id token buy_in a
  pub was_new : any (sits_as agent_id) a.seats ≡ false
  pub was_free : includes seat.seat_index (taken_seats a.seats) ≡ false
  pub had_room : length (filter_by sits a.seats) < a.max_seats
  pub low : seat.seat_index ≤ length (filter_by sits a.seats)

new_seat-Seated :
    (agent_id token buy_in : ℕ) (a : TableActor)
    → length (filter_by sits a.seats) < a.max_seats
    → any (sits_as agent_id) a.seats ≡ false
    → Seated a agent_id token buy_in
        (record a { seats = a.seats ++ new_seat agent_id token buy_in a ∷ [] })
        (new_seat agent_id token buy_in a)
new_seat-Seated agent_id token buy_in a room new =
    let (free, low) = first_free-free (taken_seats a.seats) in
    record {
      table = refl;
      is_new_seat = refl;
      was_new = new;
      was_free = free;
      had_room = room;
      low =
          omega (arith, low, length-map (λ (s : SeatInfo). s.seat_index) (filter_by sits a.seats));
    }

pub add_seat-Seated :
    (agent_id token buy_in : ℕ) (a : TableActor) {after : TableActor} {seat : SeatInfo}
    → add_seat agent_id token buy_in a ≡ (after, ok seat)
    → Seated a agent_id token buy_in after seat
unfolding add_seat
add_seat-Seated agent_id token buy_in a {after} {seat} e =
    elim (Bool-cases (leb a.max_seats (length (filter_by sits a.seats)))) [
      | inl full ↦ cc (rw full at e)
      | inr room ↦ elim (Bool-cases (any (sits_as agent_id) a.seats)) [
        | inl already ↦ cc (rw (room, already) at e)
        | inr new ↦
            let accepted = rw (room, new) at e in
            let made = new_seat-Seated agent_id token buy_in a (ground arith) new in
            subst (λ c. Seated a agent_id token buy_in c seat) (ap (λ m. m.0) accepted)
              (subst (Seated a agent_id token buy_in _) (ok_inj (ap (λ m. m.1) accepted)) made)
      ]
    ]

-- The seats after an accepted seat.
pub add_seat-SeatsSound :
    (agent_id token buy_in : ℕ) (a : TableActor) {after : TableActor} {seat : SeatInfo}
    → SeatsSound a.max_seats a.seats
    → add_seat agent_id token buy_in a ≡ (after, ok seat)
    → SeatsSound after.max_seats after.seats
add_seat-SeatsSound agent_id token buy_in a {after} {seat} h e =
    let made = add_seat-Seated agent_id token buy_in a e in
    subst (λ (c : TableActor). SeatsSound c.max_seats c.seats) (sym made.table)
      (SeatsSound-snoc a.max_seats a.seats seat h (ap (λ s. sits s) made.is_new_seat)
        (ap (λ (s : SeatInfo). any (sits_as s.agent_id) a.seats) made.is_new_seat ∙ made.was_new)
        made.was_free made.low made.had_room)
