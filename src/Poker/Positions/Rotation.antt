-- ===== src/Poker/Positions/Rotation.antt =====
-- packages/poker-engine/src/positions.ts: walks round the table.
use agent_poker.Base.{
  ℕ, zero, suc, ◌+◌, ◌-◌, ◌%◌, ◌≤◌, ◌<◌, ◌≡◌, ◌≢◌, sym, ap, subst, ◌∙◌, ◌⊎◌, inl, inr, Bool, true,
  false, List, [], ◌∷◌, map, length, get_or, none, some, includes, find_by, index_of, range_from,
  sort, includes-sort, arith, Option-cases, All, ==_refl,
}
use agent_poker.Base.Laws.{
  includes-map_range, includes-position, index_of-lt, index_of-none, find_by-All,
}
use agent_poker.Poker.Positions.{clockwise, is_free, get_next_active_seat}
use native.Mathlib.Decide.{dec_lt}
use native.Mathlib.Nat.{mod-eq_of_lt, add-mod_right, mod-lt}

wrap-eq : (n k j : ℕ) → j < n → (k ≡ j) ⊎ (k ≡ j + n) → k % n ≡ j
wrap-eq n k j h (inl e) = rw e (mod-eq_of_lt h)
wrap-eq n k j h (inr e) = rw e (add-mod_right j n ∙ mod-eq_of_lt h)

-- The offset that leads from one position to another; it is n only from a position to itself.
pub offset_between :
    (n pos j : ℕ)
    → pos < n
    → j < n
    → (i : ℕ) × (1 ≤ i) × (i ≤ n) × ((pos + i) % n ≡ j) × (j ≢ pos → i < n)
offset_between n pos j p q = elim (dec_lt pos j) [
  | yes h ↦ (
    j - pos,
    omega arith,
    omega arith,
    wrap-eq n (pos + (j - pos)) j q (inl (omega arith)),
    λ d. omega arith,
  )
  | no h ↦ (
    j + n - pos,
    omega arith,
    omega arith,
    wrap-eq n (pos + (j + n - pos)) j q (inr (omega arith)),
    λ d. omega arith,
  )
]

-- A full turn from any position meets every seat.
pub clockwise-full :
    (sorted : List ℕ) (pos a : ℕ)
    → pos < length sorted
    → includes a sorted ≡ true
    → includes a (clockwise sorted pos 1 (length sorted)) ≡ true
clockwise-full sorted pos a p h =
    let (j, q, g) = includes-position a sorted h in
    let (i, low, high, e, _) = offset_between (length sorted) pos j p q in
    let at : ℕ → ℕ = λ k. get_or sorted ((pos + k) % length sorted) 0 in
    subst (λ b. includes b (clockwise sorted pos 1 (length sorted)) ≡ true)
      (ap (λ k. get_or sorted k 0) e ∙ g)
      (includes-map_range at 1 (length sorted) i low (omega arith))

-- So does a walk from the first seat over all of them.
pub clockwise-start :
    (sorted : List ℕ) (a : ℕ)
    → includes a sorted ≡ true
    → includes a (clockwise sorted 0 0 (length sorted)) ≡ true
clockwise-start sorted a h =
    let (j, q, g) = includes-position a sorted h in
    let at : ℕ → ℕ = λ k. get_or sorted ((0 + k) % length sorted) 0 in
    subst (λ b. includes b (clockwise sorted 0 0 (length sorted)) ≡ true)
      (ap (λ k. get_or sorted k 0) (wrap-eq (length sorted) (0 + j) j q (inl (omega arith))) ∙ g)
      (includes-map_range at 0 (length sorted) j (omega arith) (omega arith))

-- The walk that leaves out the start meets every other seat.
clockwise-others :
    (sorted : List ℕ) (pos current a : ℕ)
    → index_of current sorted ≡ some pos
    → a ≢ current
    → includes a sorted ≡ true
    → includes a (clockwise sorted pos 1 (length sorted - 1)) ≡ true
clockwise-others sorted pos current a at_pos d h =
    let (j, q, g) = includes-position a sorted h in
    let (p, c) = index_of-lt current sorted at_pos in
    let (i, low, high, e, less) = offset_between (length sorted) pos j p q in
    let apart : j ≢ pos = λ same. d (sym g ∙ ap (λ k. get_or sorted k 0) same ∙ c) in
    let below : i < length sorted = less apart in
    let at : ℕ → ℕ = λ k. get_or sorted ((pos + k) % length sorted) 0 in
    subst (λ b. includes b (clockwise sorted pos 1 (length sorted - 1)) ≡ true)
      (ap (λ k. get_or sorted k 0) e ∙ g)
      (includes-map_range at 1 (length sorted - 1) i low (omega arith))

includes-get_or : (xs : List ℕ) (i : ℕ) → i < length xs → includes (get_or xs i 0) xs ≡ true
includes-get_or [] i h = elim h [ ]
includes-get_or (x ∷ xs) zero h = rw ==_refl
includes-get_or (x ∷ xs) (suc i) h = ground (arith, includes-get_or xs i (omega arith))

All-range :
    (P : ℕ → Type 0) (f : ℕ → ℕ) (start n : ℕ)
    → ((i : ℕ) → P (f i))
    → All P (map f (range_from start n))
All-range P f start zero h = tt
All-range P f start (suc n) h = (h start, All-range P f (start + 1) n h)

-- The walk meets only seats.
pub clockwise-All :
    (sorted : List ℕ) (pos start count : ℕ)
    → 0 < length sorted
    → All (λ a. includes a sorted ≡ true) (clockwise sorted pos start count)
clockwise-All sorted pos start count h =
    All-range (λ a. includes a sorted ≡ true) _ start count
      λ i. includes-get_or sorted ((pos + i) % length sorted) (mod-lt (pos + i) h)

not_any :
    (p : ℕ → Bool) (a : ℕ) (xs : List ℕ) → includes a xs ≡ true → find_by p xs ≡ none → p a ≡ false
not_any p a [] h e = cc
not_any p a (x ∷ xs) h e = ground (arith, not_any p a xs)

-- The seat that gets the turn is a seat of the table, and has neither folded nor is all-in.
pub get_next_active_seat-free :
    (seats : List ℕ) (current : ℕ) (folded all_in : List ℕ) {seat : ℕ}
    → get_next_active_seat seats current folded all_in ≡ some seat
    → (includes seat seats ≡ true) × (is_free folded all_in seat ≡ true)
unfolding get_next_active_seat
get_next_active_seat-free seats current folded all_in {seat} e =
    elim (Option-cases (index_of current (sort seats))) [
      | inl u ↦ cc (rw (u, get_next_active_seat) at e)
      | inr (pos, u) ↦
          let (p, _) = index_of-lt current (sort seats) u in
          let (m, free) =
            find_by-All (λ a. includes a (sort seats) ≡ true) (is_free folded all_in) _
              (clockwise-All (sort seats) pos 1 (length (sort seats) - 1) (omega arith))
              (rw (u, get_next_active_seat) at e) in
          (sym (includes-sort seat seats) ∙ m, free)
    ]

-- If the current seat is at the table and nobody gets the turn, every other seat of the table has
-- folded or is all-in.
pub get_next_active_seat-none :
    (seats : List ℕ) (current : ℕ) (folded all_in : List ℕ) (seat : ℕ)
    → includes current seats ≡ true
    → get_next_active_seat seats current folded all_in ≡ none
    → includes seat seats ≡ true
    → seat ≢ current
    → is_free folded all_in seat ≡ false
unfolding get_next_active_seat
get_next_active_seat-none seats current folded all_in seat here e m d =
    elim (Option-cases (index_of current (sort seats))) [
      | inl u ↦ cc (index_of-none current (sort seats) u, includes-sort current seats)
      | inr (pos, u) ↦
          not_any (is_free folded all_in) seat _
            (clockwise-others (sort seats) pos current seat u d (includes-sort seat seats ∙ m))
            (rw (u, get_next_active_seat) at e)
    ]
