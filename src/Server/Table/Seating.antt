-- ===== src/Server/Table/Seating.antt =====
-- apps/game-server/src/table-actor.ts: the search for a free seat.
use agent_poker.Base.{
  ℕ, zero, suc, ◌+◌, ◌≤◌, ◌<◌, ◌≡◌, ◌≢◌, subst, List, [], ◌∷◌, filter_by, length, includes,
  Bool-cases, inl, inr, arith, true, false, not, ◌==◌,
}
use agent_poker.Server.Table.{free_from, first_free}

without : ℕ → List ℕ → List ℕ
without k taken = filter_by (λ n. not (n == k)) taken

length-without-le : (k : ℕ) (xs : List ℕ) → length (without k xs) ≤ length xs
unfolding without
length-without-le k [] = omega arith
length-without-le k (x ∷ xs) = ground (arith, length-without-le k xs)

length-without : (k : ℕ) (xs : List ℕ) → includes k xs ≡ true → length (without k xs) < length xs
unfolding without
length-without k [] h = cc
length-without k (x ∷ xs) h = ground (arith, length-without k xs, length-without-le k xs)

includes-without :
    (k n : ℕ) (xs : List ℕ) → k ≢ n → includes n xs ≡ true → includes n (without k xs) ≡ true
unfolding without
includes-without k n [] d h = h
includes-without k n (x ∷ xs) d h = ground (arith, includes-without k n xs d)

-- A list that has n numbers in a row has at least n entries.
pigeonhole :
    (n start : ℕ) (xs : List ℕ)
    → ((k : ℕ) → start ≤ k → k < start + n → includes k xs ≡ true)
    → n ≤ length xs
pigeonhole zero start xs h = omega arith
pigeonhole (suc n) start xs h =
    let here = h start (omega arith) (omega arith) in
    omega (
      arith,
      length-without start xs here,
      pigeonhole n (start + 1) (without start xs) λ k low high.
          includes-without start k xs (λ same. omega arith) (h k (omega arith) (omega arith)),
    )

-- Every number below the one that the search returns is taken, and it is free unless the search ran
-- out.
record Found (fuel : ℕ) (taken : List ℕ) (i found : ℕ) : Type 0 where
  low : i ≤ found
  high : found ≤ i + fuel
  below : (k : ℕ) → i ≤ k → k < found → includes k taken ≡ true
  free : found < i + fuel → includes found taken ≡ false

free_from-Found : (fuel : ℕ) (taken : List ℕ) (i : ℕ) → Found fuel taken i (free_from fuel taken i)
unfolding free_from
free_from-Found zero taken i = record {
  low = omega arith;
  high = omega arith;
  below = λ k a b. absurd (omega arith);
  free = λ less. absurd (omega arith);
}
free_from-Found (suc fuel) taken i =
    let later = free_from-Found fuel taken (i + 1) in
    elim (Bool-cases (includes i taken)) [
      | inl here ↦ record {
        low = rw here (omega (arith, later.low));
        high = rw here (omega (arith, later.high));
        below = rw here (λ k a b. elim (Bool-cases (i == k)) [
          | inl same ↦ let e : i ≡ k = ground arith in subst (λ n. includes n taken ≡ true) e here
          | inr other ↦ later.below k (ground arith) b
        ]);
        free = rw here (λ less. later.free (omega arith));
      }
      | inr here ↦ record {
        low = rw here (omega arith);
        high = rw here (omega arith);
        below = rw here (λ k a b. absurd (omega arith));
        free = rw here (λ less. here);
      }
    ]

-- The number that is found is free, and at most as large as there are seats taken.
pub first_free-free :
    (taken : List ℕ)
    → (includes (first_free taken) taken ≡ false) × (first_free taken ≤ length taken)
unfolding first_free
first_free-free taken =
    let found = free_from-Found (length taken) taken 0 in
    elim (Bool-cases (includes (free_from (length taken) taken 0) taken)) [
      | inr free ↦ (free, omega (arith, found.high))
      | inl here ↦
          let all_taken = pigeonhole (free_from (length taken) taken 0 + 1) 0 taken λ k low high.
            elim (Bool-cases (free_from (length taken) taken 0 == k)) [
              | inl same ↦ ground arith
              | inr other ↦ found.below k low (ground arith)
            ] in
          cc (found.free (omega (arith, all_taken)), here)
    ]
