-- ===== src/Server/Table/Stacks.antt =====
-- apps/game-server/src/table-actor.ts: the chips at the seats of the agents.
use agent_poker.Base.{
  ℕ, ◌+◌, ◌≡◌, ◌≢◌, refl, ap, ◌∙◌, List, [], ◌∷◌, ◌++◌, map, filter_by, update_by, includes, any,
  sum_by, Bool-cases, inl, inr, arith, All, true, false, ◌==◌, if◌then◌else◌,
}
use agent_poker.Base.Laws.{Distinct, All-map}
use agent_poker.Poker.Types.{PlayerState, PlayerSetup}
use agent_poker.Server.Table.{SeatInfo, sits_as, of_agent, leave, plays, setup_of}
use agent_poker.Server.Table.Hand.{store_chips}

abbrev pub seat_total : List SeatInfo → ℕ
seat_total seats = sum_by (λ (s : SeatInfo). s.chips) seats

abbrev pub agents_of : List SeatInfo → List ℕ
agents_of seats = map (λ (s : SeatInfo). s.agent_id) seats

-- The chips at the first seat of an agent.
abbrev pub chips_of : List SeatInfo → ℕ → ℕ
chips_of [] id = 0
chips_of (s ∷ ss) id = if s.agent_id == id then s.chips else chips_of ss id

abbrev pub HasSeat : List SeatInfo → ℕ → Type 0
HasSeat seats id = any (of_agent id) seats ≡ true

abbrev pub held : List SeatInfo → List ℕ → ℕ
held seats ids = sum_by (chips_of seats) ids

module _ (id n : ℕ) where
  abbrev written : List SeatInfo → List SeatInfo
  written seats = update_by (of_agent id) (λ s. record s { chips = n }) seats

  written-total :
      (seats : List SeatInfo)
      → HasSeat seats id
      → seat_total (written seats) + chips_of seats id ≡ seat_total seats + n
  written-total [] h = cc
  written-total (s ∷ ss) h = elim (Bool-cases (s.agent_id == id)) [
    | inl here ↦ rw here (omega arith)
    | inr later ↦ rw later (omega (arith, written-total ss (rw later at h)))
  ]

  written-chips_of :
      (seats : List SeatInfo) (k : ℕ) → id ≢ k → chips_of (written seats) k ≡ chips_of seats k
  written-chips_of [] k d = refl
  written-chips_of (s ∷ ss) k d = ground (arith, written-chips_of ss k d)

  written-agents : (seats : List SeatInfo) → agents_of (written seats) ≡ agents_of seats
  written-agents [] = refl
  written-agents (s ∷ ss) = ground (arith, written-agents ss)

  written-any :
      (seats : List SeatInfo) (k : ℕ) → any (of_agent k) (written seats) ≡ any (of_agent k) seats
  written-any [] k = refl
  written-any (s ∷ ss) k = ground (arith, written-any ss k)

  written-held :
      (seats : List SeatInfo) (ids : List ℕ)
      → includes id ids ≡ false
      → held (written seats) ids ≡ held seats ids
  written-held seats [] h = refl
  written-held seats (k ∷ ks) h =
      let other : id ≢ k = λ same. ground arith in
      omega (arith, written-chips_of seats k other, written-held seats ks (ground arith))

-- The ids of a list of players, and their chips.
abbrev pub player_ids : List PlayerState → List ℕ
player_ids ps = map (λ (p : PlayerState). p.id) ps

abbrev pub stacks : List PlayerState → ℕ
stacks ps = sum_by (λ (p : PlayerState). p.chips) ps

-- What is written to the seats takes the place of what they held.
pub store_chips-total :
    (ps : List PlayerState) (seats : List SeatInfo)
    → Distinct (player_ids ps)
    → All (HasSeat seats) (player_ids ps)
    → seat_total (store_chips ps seats) + held seats (player_ids ps) ≡ seat_total seats + stacks ps
store_chips-total [] seats d h = omega arith
store_chips-total (p ∷ ps) seats d h = omega (
  arith,
  written-total p.id p.chips seats h.0,
  written-held p.id p.chips seats (player_ids ps) d.0,
  store_chips-total ps (written p.id p.chips seats) d.1 (
      All-map (HasSeat seats) (HasSeat (written p.id p.chips seats))
        (λ k e. written-any p.id p.chips seats k ∙ e) (player_ids ps) h.1),
)

pub store_chips-agents :
    (ps : List PlayerState) (seats : List SeatInfo)
    → agents_of (store_chips ps seats) ≡ agents_of seats
store_chips-agents [] seats = refl
store_chips-agents (p ∷ ps) seats =
    store_chips-agents ps (written p.id p.chips seats) ∙ written-agents p.id p.chips seats

module _ (id : ℕ) where
  abbrev left_by : List SeatInfo → List SeatInfo
  left_by seats = update_by (sits_as id) leave seats

  pub leave-total : (seats : List SeatInfo) → seat_total (left_by seats) ≡ seat_total seats
  leave-total [] = refl
  leave-total (s ∷ ss) = ground (arith, leave-total ss)

  pub leave-agents : (seats : List SeatInfo) → agents_of (left_by seats) ≡ agents_of seats
  leave-agents [] = refl
  leave-agents (s ∷ ss) = ground (arith, leave-agents ss)

  pub leave-chips_of :
      (seats : List SeatInfo) (k : ℕ) → chips_of (left_by seats) k ≡ chips_of seats k
  leave-chips_of [] k = refl
  leave-chips_of (s ∷ ss) k = ground (arith, leave-chips_of ss k)

  pub leave-any :
      (seats : List SeatInfo) (k : ℕ) → any (of_agent k) (left_by seats) ≡ any (of_agent k) seats
  leave-any [] k = refl
  leave-any (s ∷ ss) k = ground (arith, leave-any ss k)

module _ (x : SeatInfo) where
  pub join-total :
      (seats : List SeatInfo) → seat_total (seats ++ x ∷ []) ≡ seat_total seats + x.chips
  join-total [] = omega arith
  join-total (s ∷ ss) = omega (arith, join-total ss)

  pub join-agents :
      (seats : List SeatInfo) → agents_of (seats ++ x ∷ []) ≡ agents_of seats ++ x.agent_id ∷ []
  join-agents [] = refl
  join-agents (s ∷ ss) = ap (λ l. s.agent_id ∷ l) (join-agents ss)

  pub join-chips_of :
      (seats : List SeatInfo) (k : ℕ)
      → HasSeat seats k
      → chips_of (seats ++ x ∷ []) k ≡ chips_of seats k
  join-chips_of [] k h = cc
  join-chips_of (s ∷ ss) k h = ground (arith, join-chips_of ss k)

  pub join-any : (seats : List SeatInfo) (k : ℕ) → HasSeat seats k → HasSeat (seats ++ x ∷ []) k
  join-any [] k h = cc
  join-any (s ∷ ss) k h = ground (arith, join-any ss k)

-- Seats that hold the same for the agents of a list.
pub held-same :
    (xs ys : List SeatInfo) (ids : List ℕ)
    → All (λ k. chips_of ys k ≡ chips_of xs k) ids
    → held ys ids ≡ held xs ids
held-same xs ys [] h = refl
held-same xs ys (k ∷ ks) h = omega (arith, h.0, held-same xs ys ks h.1)

pub no_seat :
    (id : ℕ) (seats : List SeatInfo)
    → any (of_agent id) seats ≡ false
    → includes id (agents_of seats) ≡ false
no_seat id [] h = refl
no_seat id (s ∷ ss) h = ground (arith, no_seat id ss)

abbrev pub setups_of : List SeatInfo → List PlayerSetup
setups_of seats = map setup_of (filter_by plays seats)

abbrev pub setup_ids : List PlayerSetup → List ℕ
setup_ids ps = map (λ (p : PlayerSetup). p.id) ps

active-includes :
    (k : ℕ) (seats : List SeatInfo)
    → includes k (agents_of seats) ≡ false
    → includes k (setup_ids (setups_of seats)) ≡ false
active-includes k [] h = refl
active-includes k (s ∷ ss) h = ground (arith, active-includes k ss)

pub active-Distinct :
    (seats : List SeatInfo) → Distinct (agents_of seats) → Distinct (setup_ids (setups_of seats))
active-Distinct [] d = tt
active-Distinct (s ∷ ss) d = ground (arith, active-Distinct ss, active-includes s.agent_id ss)

-- An agent who is not at the front has the same chips with the front dropped.
held-cons :
    (s : SeatInfo) (ss : List SeatInfo) (ids : List ℕ)
    → includes s.agent_id ids ≡ false
    → held (s ∷ ss) ids ≡ held ss ids
held-cons s ss [] h = refl
held-cons s ss (k ∷ ks) h = ground (arith, held-cons s ss ks)

pub active-held :
    (seats : List SeatInfo)
    → Distinct (agents_of seats)
    → held seats (setup_ids (setups_of seats))
      ≡ sum_by (λ (p : PlayerSetup). p.chips) (setups_of seats)
active-held [] d = refl
active-held (s ∷ ss) d =
    let rest = held-cons s ss (setup_ids (setups_of ss)) (active-includes s.agent_id ss d.0) in
    elim (Bool-cases (plays s)) [
      | inl active ↦ rw active (ground (arith, rest, active-held ss d.1))
      | inr idle ↦ rw idle (rest ∙ active-held ss d.1)
    ]

any-cons : (s : SeatInfo) (ss : List SeatInfo) (k : ℕ) → HasSeat ss k → HasSeat (s ∷ ss) k
any-cons s ss k h = ground arith

pub active-any : (seats : List SeatInfo) → All (HasSeat seats) (setup_ids (setups_of seats))
active-any [] = tt
active-any (s ∷ ss) =
    let rest =
      All-map (HasSeat ss) (HasSeat (s ∷ ss)) (any-cons s ss) (setup_ids (setups_of ss))
        (active-any ss) in
    elim (Bool-cases (plays s)) [
      | inl active ↦ rw active (ground arith, rest)
      | inr idle ↦ rw idle rest
    ]
