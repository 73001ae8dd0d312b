-- ===== src/Server/Table/Served.antt =====
-- apps/game-server/src/table-actor.ts: a table as a sequence of calls.
use agent_poker.Base.{
  ℕ, ◌≤◌, ◌<◌, ◌≡◌, refl, sym, ap, ◌∙◌, subst, List, [], ◌∷◌, map, filter_by, update_by, length,
  length-map, includes, Bool-cases, inl, inr, arith, All, false, Option, none, some, ok,
}
use agent_poker.Base.Laws.{Distinct}
use agent_poker.Poker.Types.{GameConfig, GameState, GameEvent, PlayerState, PlayerAction}
use agent_poker.History.HashChain.{Text}
use agent_poker.Server.Table.{
  Variant, TableActor, SeatInfo, sits, sits_as, of_agent, taken_seats, add_seat, remove_seat, leave,
  new_table,
}
use agent_poker.Server.Table.Hand.{
  note_seq, store_chips, start_hand, process_action, handle_timeout, complete_hand, after_action,
  close,
}
use agent_poker.Server.Table.Cases.{
  add_seat-cases, start_hand-cases, process_action-cases, handle_timeout-cases,
}
use agent_poker.Server.Table.Sound.{SeatsSound, add_seat-Seated, add_seat-SeatsSound}

-- The tables that calls lead to, whether they return or throw.
pub data Served (a : TableActor) : TableActor → Type 0 where
  opens : Served a a
  joins :
      {b c : TableActor} (id token buy_in : ℕ)
      → Served a b
      → c ≡ (add_seat id token buy_in b).0
      → Served a c
  leaves : {b c : TableActor} (id : ℕ) → Served a b → c ≡ remove_seat id b → Served a c
  starts : {b c : TableActor} → Served a b → c ≡ (start_hand b).0 → Served a c
  acts :
      {b c : TableActor} (id : ℕ) (action : PlayerAction) (request : Option Text) (seq : Option ℕ)
      → Served a b
      → c ≡ (process_action id action request seq b).0
      → Served a c
  times_out :
      {b c : TableActor} (request : Text)
      → Served a b
      → c ≡ (handle_timeout request b).0
      → Served a c
  closes : {b c : TableActor} → Served a b → c ≡ close b → Served a c

-- A seat that somebody leaves is no longer among those taken.
module _ (id k : ℕ) (key : SeatInfo → ℕ) where
  includes-leave :
      (seats : List SeatInfo)
      → includes k (map key (filter_by sits seats)) ≡ false
      → includes k (map key (filter_by sits (update_by (sits_as id) leave seats))) ≡ false
  includes-leave [] h = refl
  includes-leave (s ∷ ss) h = ground (arith, includes-leave ss)

Distinct-leave :
    (id : ℕ) (key : SeatInfo → ℕ) (seats : List SeatInfo)
    → Distinct (map key (filter_by sits seats))
    → Distinct (map key (filter_by sits (update_by (sits_as id) leave seats)))
Distinct-leave id key [] h = tt
Distinct-leave id key (s ∷ ss) h =
    ground (arith, Distinct-leave id key ss, includes-leave id (key s) key ss)

All-leave :
    (P : ℕ → Type 0) (id : ℕ) (seats : List SeatInfo)
    → All P (taken_seats seats)
    → All P (taken_seats (update_by (sits_as id) leave seats))
All-leave P id [] h = tt
All-leave P id (s ∷ ss) h = ground (arith, All-leave P id ss)

length-leave :
    (id : ℕ) (seats : List SeatInfo)
    → length (filter_by sits (update_by (sits_as id) leave seats)) ≤ length (filter_by sits seats)
length-leave id [] = omega arith
length-leave id (s ∷ ss) = ground (arith, length-leave id ss)

remove_seat-SeatsSound :
    (id : ℕ) (a : TableActor)
    → SeatsSound a.max_seats a.seats
    → SeatsSound a.max_seats (remove_seat id a).seats
unfolding remove_seat
remove_seat-SeatsSound id a h = record {
  agents = Distinct-leave id (λ s. s.agent_id) a.seats h.agents;
  indices = Distinct-leave id (λ s. s.seat_index) a.seats h.indices;
  inside = All-leave (λ i. i < a.max_seats) id a.seats h.inside;
  room = omega (arith, h.room, length-leave id a.seats);
}

-- Writing the chips moves nobody.
abbrev pub SameSeats : List SeatInfo → List SeatInfo → Type 0
SameSeats xs ys =
    (map (λ (s : SeatInfo). s.agent_id) (filter_by sits ys)
      ≡ map (λ (s : SeatInfo). s.agent_id) (filter_by sits xs))
    × (taken_seats ys ≡ taken_seats xs)

abbrev with_chips : ℕ → SeatInfo → SeatInfo
with_chips n s = record s { chips = n }

update-SameSeats :
    (id n : ℕ) (seats : List SeatInfo)
    → SameSeats seats (update_by (of_agent id) (with_chips n) seats)
update-SameSeats id n [] = (refl, refl)
update-SameSeats id n (s ∷ ss) =
    let later = update-SameSeats id n ss in ground (arith, later.0, later.1)

store_chips-SameSeats :
    (players : List PlayerState) (seats : List SeatInfo)
    → SameSeats seats (store_chips players seats)
store_chips-SameSeats [] seats = (refl, refl)
store_chips-SameSeats (p ∷ ps) seats =
    let first = update-SameSeats p.id p.chips seats in
    let later = store_chips-SameSeats ps (update_by (of_agent p.id) (with_chips p.chips) seats) in
    (later.0 ∙ first.0, later.1 ∙ first.1)

pub SeatsSound-same :
    (n : ℕ) (xs ys : List SeatInfo) → SameSeats xs ys → SeatsSound n xs → SeatsSound n ys
SeatsSound-same n xs ys same h = record {
  agents = subst Distinct (sym same.0) h.agents;
  indices = subst Distinct (sym same.1) h.indices;
  inside = subst (All (λ i. i < n)) (sym same.1) h.inside;
  room = omega (
    arith,
    h.room,
    ap length same.0,
    length-map (λ (s : SeatInfo). s.agent_id) (filter_by sits xs),
    length-map (λ (s : SeatInfo). s.agent_id) (filter_by sits ys),
  );
}

-- What the calls keep of a table's seats.
abbrev pub Kept : ℕ → TableActor → Type 0
Kept n a = (a.max_seats ≡ n) × SeatsSound n a.seats

after_action-Kept :
    (n : ℕ) (request : Option Text) (r : GameState × List GameEvent) (a : TableActor)
    → Kept n a
    → Kept n (after_action request r a)
unfolding after_action complete_hand
after_action-Kept n request r a h = elim (Bool-cases r.0.is_hand_complete) [
  | inl over ↦
      simp over (h.0, SeatsSound-same n a.seats _ (store_chips-SameSeats r.0.players a.seats) h.1)
  | inr playing ↦ simp playing h
]

note_seq-Kept : (n id : ℕ) (seq : Option ℕ) (a : TableActor) → Kept n a → Kept n (note_seq id seq a)
note_seq-Kept n id none a h = h
note_seq-Kept n id (some m) a h = h

remove_seat-Kept : (n id : ℕ) (a : TableActor) → Kept n a → Kept n (remove_seat id a)
unfolding remove_seat
remove_seat-Kept n id a h = (
  h.0,
  subst (λ m. SeatsSound m (remove_seat id a).seats) h.0
      (remove_seat-SeatsSound id a (subst (λ m. SeatsSound m a.seats) (sym h.0) h.1)),
)

add_seat-Kept :
    (n id token buy_in : ℕ) (a : TableActor) {after : TableActor} {seat : SeatInfo}
    → Kept n a
    → add_seat id token buy_in a ≡ (after, ok seat)
    → Kept n after
add_seat-Kept n id token buy_in a {after} h e =
    let made = add_seat-Seated id token buy_in a e in
    let same : after.max_seats ≡ n = ap (λ (c : TableActor). c.max_seats) made.table ∙ h.0 in
    (
      same,
      subst (λ m. SeatsSound m after.seats) same
          (add_seat-SeatsSound id token buy_in a (subst (λ m. SeatsSound m a.seats) (sym h.0) h.1)
            e),
    )

pub Served-Kept : {a b : TableActor} → Kept a.max_seats a → Served a b → Kept a.max_seats b
Served-Kept h opens = h
Served-Kept {a} h (joins {b = b} id token buy_in before e) =
    let k = Served-Kept h before in
    subst (Kept a.max_seats) (sym e) (
      add_seat-cases (Kept a.max_seats) id token buy_in b k
        λ after seat f. add_seat-Kept a.max_seats id token buy_in b k f)
Served-Kept {a} h (leaves {b = b} id before e) =
    let k = Served-Kept h before in
    subst (Kept a.max_seats) (sym e) (remove_seat-Kept a.max_seats id b k)
Served-Kept {a} h (starts {b = b} before e) =
    let k = Served-Kept h before in
    subst (Kept a.max_seats) (sym e) (start_hand-cases (Kept a.max_seats) b k k λ r _ _. k)
Served-Kept {a} h (acts {b = b} id action request seq before e) =
    let k = Served-Kept h before in
    let noted = note_seq-Kept a.max_seats id seq b k in
    subst (Kept a.max_seats) (sym e) (
      process_action-cases (Kept a.max_seats) id action request seq b k noted
        λ s r _ _. after_action-Kept a.max_seats request r (note_seq id seq b) noted)
Served-Kept {a} h (times_out {b = b} request before e) =
    let k = Served-Kept h before in
    subst (Kept a.max_seats) (sym e) (
      handle_timeout-cases (Kept a.max_seats) request b k
        λ id action s r _ _. after_action-Kept a.max_seats (some request) r b k)
Served-Kept {a} h (closes {b = b} before e) =
    subst (Kept a.max_seats) (sym e) (Served-Kept h before)

empty-SeatsSound : (n : ℕ) → SeatsSound n []
empty-SeatsSound n = record { agents = tt; indices = tt; inside = tt; room = omega arith }

-- After any calls on a new table, accepted or refused, the table's size is the one it was made
-- with, nobody sits twice, no seat is taken twice, every taken seat's index is below the size, and
-- no more agents sit than the size allows.
pub Served-SeatsSound :
    (table_id : Text) (seats : Option ℕ) (variant : Option Variant) (config : Option GameConfig)
    {b : TableActor}
    → Served (new_table table_id seats variant config) b
    → (b.max_seats ≡ (new_table table_id seats variant config).max_seats)
      × SeatsSound b.max_seats b.seats
Served-SeatsSound table_id seats variant config {b} served =
    let (same, sound) = Served-Kept (refl, empty-SeatsSound _) served in
    (same, subst (λ m. SeatsSound m b.seats) (sym same) sound)
