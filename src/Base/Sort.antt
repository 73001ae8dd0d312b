-- ===== src/Base/Sort.antt =====
-- `Array.prototype.sort` with a comparator: a stable sort. `before x y` says that the comparator
-- puts `x` strictly before `y`.
use agent_poker.Base.Tests.{if◌then◌else◌, ltb}
use agent_poker.Base.Lists.{length, includes, All}
use Prim.Native.Nat.{ℕ, suc, ◌≤◌}
use mathlib.Core.Path.{◌≡◌, refl}
use mathlib.Core.Bool.{Bool}
use mathlib.Core.List.{List, [], ◌∷◌}
use native.Mathlib.Omega.{arith}

module _ {ℓ} {A : Type ℓ} (before : A → A → Bool) where
  unfoldable pub insert_sorted : A → List A → List A
  insert_sorted x [] = x ∷ []
  insert_sorted x (y ∷ ys) = if before y x then y ∷ insert_sorted x ys else x ∷ y ∷ ys

  unfoldable pub sort_by : List A → List A
  unfolding insert_sorted
  sort_by [] = []
  sort_by (x ∷ xs) = insert_sorted x (sort_by xs)

  length-insert_sorted : (x : A) (xs : List A) → length (insert_sorted x xs) ≡ suc (length xs)
  unfolding insert_sorted
  length-insert_sorted x [] = refl
  length-insert_sorted x (y ∷ ys) = ground (arith, length-insert_sorted x ys)

  pub length-sort_by : (xs : List A) → length (sort_by xs) ≡ length xs
  unfolding sort_by
  length-sort_by [] = refl
  length-sort_by (x ∷ xs) = omega (arith, length-insert_sorted x (sort_by xs), length-sort_by xs)

-- `sort((a, b) => a - b)`
unfoldable pub sort : List ℕ → List ℕ
unfolding sort_by
sort xs = sort_by ltb xs

includes-insert_sorted :
    (a x : ℕ) (xs : List ℕ) → includes a (insert_sorted ltb x xs) ≡ includes a (x ∷ xs)
unfolding insert_sorted
includes-insert_sorted a x [] = refl
includes-insert_sorted a x (y ∷ ys) = ground (arith, includes-insert_sorted a x ys)

pub includes-sort : (a : ℕ) (xs : List ℕ) → includes a (sort xs) ≡ includes a xs
unfolding sort
includes-sort a [] = refl
includes-sort a (x ∷ xs) =
    ground (arith, includes-insert_sorted a x (sort_by ltb xs), includes-sort a xs)

pub length-sort : (xs : List ℕ) → length (sort xs) ≡ length xs
unfolding sort
length-sort xs = length-sort_by ltb xs

-- Ascending order.
abbrev pub IsSorted : List ℕ → Type 0
IsSorted [] = Unit
IsSorted (x ∷ xs) = All (λ y. x ≤ y) xs × IsSorted xs

module _ {κ} (P : ℕ → Type κ) where
  All-insert_sorted : (x : ℕ) (xs : List ℕ) → P x → All P xs → All P (insert_sorted ltb x xs)
  unfolding insert_sorted
  All-insert_sorted x [] p h = (p, tt)
  All-insert_sorted x (y ∷ ys) p h = ground (arith, All-insert_sorted x ys p h.1)

  pub All-sort : (xs : List ℕ) → All P xs → All P (sort xs)
  unfolding sort
  All-sort [] h = tt
  All-sort (x ∷ xs) h = All-insert_sorted x (sort_by ltb xs) h.0 (All-sort xs h.1)

All-le_trans : (a b : ℕ) (xs : List ℕ) → a ≤ b → All (λ y. b ≤ y) xs → All (λ y. a ≤ y) xs
All-le_trans a b [] h s = tt
All-le_trans a b (x ∷ xs) h s = (omega arith, All-le_trans a b xs h s.1)

insert_sorted-IsSorted : (x : ℕ) (xs : List ℕ) → IsSorted xs → IsSorted (insert_sorted ltb x xs)
unfolding insert_sorted
insert_sorted-IsSorted x [] h = (tt, tt)
insert_sorted-IsSorted x (y ∷ ys) h = ground (
  arith,
  insert_sorted-IsSorted x ys h.1,
  All-insert_sorted (λ z. y ≤ z) x ys,
  All-le_trans x y ys,
)

pub sort-IsSorted : (xs : List ℕ) → IsSorted (sort xs)
unfolding sort
sort-IsSorted [] = tt
sort-IsSorted (x ∷ xs) = insert_sorted-IsSorted x (sort_by ltb xs) (sort-IsSorted xs)
