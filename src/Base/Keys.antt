-- ===== src/Base/Keys.antt =====
-- `Array.prototype.sort` by a numeric key, `sort((a, b) => a.k - b.k)`.
use Prim.Native.Nat.{ℕ, ◌≤◌}
use mathlib.Core.Path.{◌≡◌, refl, ap, ◌∙◌}
use mathlib.Core.Bool.{Bool}
use mathlib.Core.List.{List, [], ◌∷◌, map}
use native.Mathlib.Omega.{arith}
use agent_poker.Base.Tests.{ltb}
use agent_poker.Base.Lists.{includes, All}
use agent_poker.Base.Sort.{sort_by, insert_sorted}

module _ {ℓ} {A : Type ℓ} (key : A → ℕ) where
  abbrev pub by_key : A → A → Bool
  by_key a b = ltb (key a) (key b)

  -- Ascending keys.
  abbrev pub IsSortedBy : List A → Type 0
  IsSortedBy [] = Unit
  IsSortedBy (x ∷ xs) = All (λ y. key x ≤ key y) xs × IsSortedBy xs

  All-insert {κ} :
      (P : A → Type κ) (x : A) (xs : List A) → P x → All P xs → All P (insert_sorted by_key x xs)
  unfolding insert_sorted
  All-insert P x [] p h = (p, tt)
  All-insert P x (y ∷ ys) p h = ground (arith, All-insert P x ys p h.1)

  All-trans : (a b : ℕ) (xs : List A) → a ≤ b → All (λ y. b ≤ key y) xs → All (λ y. a ≤ key y) xs
  All-trans a b [] h s = tt
  All-trans a b (x ∷ xs) h s = (omega arith, All-trans a b xs h s.1)

  insert-IsSortedBy : (x : A) (xs : List A) → IsSortedBy xs → IsSortedBy (insert_sorted by_key x xs)
  unfolding insert_sorted
  insert-IsSortedBy x [] h = (tt, tt)
  insert-IsSortedBy x (y ∷ ys) h = ground (
    arith,
    insert-IsSortedBy x ys h.1,
    All-insert (λ z. key y ≤ key z) x ys,
    All-trans (key x) (key y) ys,
  )

  pub sort_by-IsSortedBy : (xs : List A) → IsSortedBy (sort_by by_key xs)
  unfolding sort_by
  sort_by-IsSortedBy [] = tt
  sort_by-IsSortedBy (x ∷ xs) = insert-IsSortedBy x (sort_by by_key xs) (sort_by-IsSortedBy xs)

  insert-head :
      (x : A) (xs : List A) → All (λ y. key x ≤ key y) xs → insert_sorted by_key x xs ≡ x ∷ xs
  unfolding insert_sorted
  insert-head x [] h = refl
  insert-head x (y ∷ ys) h = ground arith

  -- A sorted list is left as it is.
  pub sort_by-sorted : (xs : List A) → IsSortedBy xs → sort_by by_key xs ≡ xs
  unfolding sort_by
  sort_by-sorted [] h = refl
  sort_by-sorted (x ∷ xs) h =
      ap (insert_sorted by_key x) (sort_by-sorted xs h.1) ∙ insert-head x xs h.0

  includes-insert :
      (k : ℕ) (x : A) (xs : List A)
      → includes k (map key (insert_sorted by_key x xs)) ≡ includes k (map key (x ∷ xs))
  unfolding insert_sorted
  includes-insert k x [] = refl
  includes-insert k x (y ∷ ys) = ground (arith, includes-insert k x ys)

  pub includes-sort_by :
      (k : ℕ) (xs : List A) → includes k (map key (sort_by by_key xs)) ≡ includes k (map key xs)
  unfolding sort_by
  includes-sort_by k [] = refl
  includes-sort_by k (x ∷ xs) =
      ground (arith, includes-insert k x (sort_by by_key xs), includes-sort_by k xs)
