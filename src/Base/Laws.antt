-- ===== src/Base/Laws.antt =====
-- Laws of the array methods.
use Prim.Native.Nat.{ℕ, zero, suc, ◌+◌, ◌≤◌, ◌<◌}
use mathlib.Core.Path.{◌≡◌, refl, subst, sym}
use mathlib.Core.Logic.{inl, inr, ◌≢◌}
use mathlib.Core.Bool.{Bool, true, false, ◌||◌}
use mathlib.Core.List.{List, [], ◌∷◌, ◌++◌, map}
use mathlib.Core.Option.{some, none}
use native.Mathlib.Omega.{arith}
use agent_poker.Base.Tests.{◌==◌, ==_refl, Bool-cases, Option-cases}
use agent_poker.Base.Lists.{
  length, get_or, find_by, update_by, any, All, sum_by, includes, index_of, range_from,
}

pub some_inj {ℓ} : {A : Type ℓ} {a b : A} → some a ≡ some b → a ≡ b
some_inj e = cc

module _ {ℓ} {A : Type ℓ} where
  pub All-map {κ ι} :
      (P : A → Type κ) (Q : A → Type ι) (f : (x : A) → P x → Q x) (xs : List A)
      → All P xs
      → All Q xs
  All-map P Q f [] h = tt
  All-map P Q f (x ∷ xs) h = (f x h.0, All-map P Q f xs h.1)

  pub All-zip {κ ι} :
      (P : A → Type κ) (Q : A → Type ι) (xs : List A)
      → All P xs
      → All Q xs
      → All (λ x. P x × Q x) xs
  All-zip P Q [] h k = tt
  All-zip P Q (x ∷ xs) h k = ((h.0, k.0), All-zip P Q xs h.1 k.1)

  pub find_by-All {κ} :
      (P : A → Type κ) (p : A → Bool) (xs : List A) {x : A}
      → All P xs
      → find_by p xs ≡ some x
      → P x × (p x ≡ true)
  find_by-All P p [] h e = cc
  find_by-All P p (y ∷ ys) {x} h e = elim (Bool-cases (p y)) [
    | inl t ↦ subst (λ z. P z × (p z ≡ true)) (some_inj (rw t at e)) (h.0, t)
    | inr t ↦ find_by-All P p ys h.1 (rw t at e)
  ]

  pub find_by-some : (p : A → Bool) (xs : List A) {x : A} → find_by p xs ≡ some x → p x ≡ true
  find_by-some p [] e = cc
  find_by-some p (y ∷ ys) {x} e = elim (Bool-cases (p y)) [
    | inl t ↦ subst (λ z. p z ≡ true) (some_inj (rw t at e)) t
    | inr f ↦ find_by-some p ys (rw f at e)
  ]

  -- A search that can succeed does.
  pub find_by-any :
      (p : A → Bool) (xs : List A)
      → any p xs ≡ true
      → (x : A) × (find_by p xs ≡ some x) × (p x ≡ true)
  find_by-any p [] e = cc
  find_by-any p (y ∷ ys) e = elim (Bool-cases (p y)) [
    | inl t ↦ (y, rw t, t)
    | inr t ↦ rw t (find_by-any p ys (rw t at e))
  ]

  pub any-append : (f : A → Bool) (xs ys : List A) → any f (xs ++ ys) ≡ (any f xs || any f ys)
  any-append f [] ys = refl
  any-append f (x ∷ xs) ys = ground (arith, any-append f xs ys)

  -- Every element that is related to itself is related to some element.
  pub any_self : (h : A → A → Bool) (xs : List A) → All (λ x. h x x ≡ true → any (h x) xs ≡ true) xs
  any_self h [] = tt
  any_self h (x ∷ xs) =
      (λ e. rw e, All-map _ _ (λ y keep e. ground (arith, keep e)) xs (any_self h xs))

  -- A field that an update keeps.
  pub map-update_by {κ} :
      {B : Type κ} (g : A → B) (f : A → A) (p : A → Bool) (xs : List A)
      → ((x : A) → g (f x) ≡ g x)
      → map g (update_by p f xs) ≡ map g xs
  map-update_by g f p [] h = refl
  map-update_by g f p (x ∷ xs) h = elim (Bool-cases (p x)) [
    | inl t ↦ rw (t, h x)
    | inr t ↦ rw (t, map-update_by g f p xs h)
  ]

  pub map-map_keep {κ} :
      {B : Type κ} (g : A → B) (f : A → A) (xs : List A)
      → ((x : A) → g (f x) ≡ g x)
      → map g (map f xs) ≡ map g xs
  map-map_keep g f [] h = refl
  map-map_keep g f (x ∷ xs) h = rw (h x, map-map_keep g f xs h)

  pub sum_by-map_keep :
      (g : A → ℕ) (f : A → A) (xs : List A)
      → ((x : A) → g (f x) ≡ g x)
      → sum_by g (map f xs) ≡ sum_by g xs
  sum_by-map_keep g f [] h = refl
  sum_by-map_keep g f (x ∷ xs) h = rw (h x, sum_by-map_keep g f xs h)

  pub sum_by-update_keep :
      (g : A → ℕ) (f : A → A) (p : A → Bool) (xs : List A)
      → ((x : A) → g (f x) ≡ g x)
      → sum_by g (update_by p f xs) ≡ sum_by g xs
  sum_by-update_keep g f p [] h = refl
  sum_by-update_keep g f p (x ∷ xs) h = elim (Bool-cases (p x)) [
    | inl t ↦ rw (t, h x)
    | inr t ↦ rw (t, sum_by-update_keep g f p xs h)
  ]

  -- An update changes a sum by what it changes at the element that is found.
  pub sum_by-update :
      (g : A → ℕ) (f : A → A) (p : A → Bool) (xs : List A) {x : A}
      → find_by p xs ≡ some x
      → sum_by g (update_by p f xs) + g x ≡ sum_by g xs + g (f x)
  sum_by-update g f p [] e = cc
  sum_by-update g f p (y ∷ ys) {x} e = elim (Bool-cases (p y)) [
    | inl t ↦ rw (t, some_inj (rw t at e)) (omega arith)
    | inr t ↦ rw t (omega (arith, sum_by-update g f p ys (rw t at e)))
  ]

  pub All-update_by {κ} :
      (P : A → Type κ) (f : A → A) (p : A → Bool) (xs : List A)
      → ((x : A) → p x ≡ true → P x → P (f x))
      → All P xs
      → All P (update_by p f xs)
  All-update_by P f p [] h a = tt
  All-update_by P f p (x ∷ xs) h a = elim (Bool-cases (p x)) [
    | inl t ↦ rw t (h x t a.0, a.1)
    | inr t ↦ rw t (a.0, All-update_by P f p xs h a.1)
  ]

  -- It is enough that the element that is found keeps the property.
  pub All-update_found {κ} :
      (P : A → Type κ) (f : A → A) (p : A → Bool) (xs : List A) {x : A}
      → find_by p xs ≡ some x
      → (P x → P (f x))
      → All P xs
      → All P (update_by p f xs)
  All-update_found P f p [] e h a = tt
  All-update_found P f p (y ∷ ys) {x} e h a = elim (Bool-cases (p y)) [
    | inl t ↦
        let same : y ≡ x = some_inj (rw t at e) in
        rw t (subst (λ z. P z → P (f z)) (sym same) h a.0, a.1)
    | inr t ↦ rw t (a.0, All-update_found P f p ys (rw t at e) h a.1)
  ]

  pub All-map_keep {κ} :
      (P : A → Type κ) (f : A → A) (xs : List A)
      → ((x : A) → P x → P (f x))
      → All P xs
      → All P (map f xs)
  All-map_keep P f [] h a = tt
  All-map_keep P f (x ∷ xs) h a = (h x a.0, All-map_keep P f xs h a.1)

-- No number occurs twice.
abbrev pub Distinct : List ℕ → Type 0
Distinct [] = Unit
Distinct (x ∷ xs) = (includes x xs ≡ false) × Distinct xs

module _ {ℓ} {A : Type ℓ} (key : A → ℕ) where
  differs : (k : ℕ) (xs : List A) → includes k (map key xs) ≡ false → All (λ x. k ≢ key x) xs
  differs k [] h = tt
  differs k (x ∷ xs) h = (ground arith, differs k xs (ground arith))

  -- With distinct keys the search by an element's key finds that element.
  pub find_by-key :
      (xs : List A)
      → Distinct (map key xs)
      → All (λ x. find_by (λ y. key y == key x) xs ≡ some x) xs
  find_by-key [] d = tt
  find_by-key (x ∷ xs) d = (
    rw ==_refl,
    All-map _ _ (λ y h. ground (arith, h.0, h.1)) xs
        (All-zip _ _ xs (differs (key x) xs d.0) (find_by-key xs d.1)),
  )

  -- The key of an element that is found occurs among the keys.
  pub includes-found :
      (p : A → Bool) (xs : List A) {x : A}
      → find_by p xs ≡ some x
      → includes (key x) (map key xs) ≡ true
  includes-found p [] e = cc
  includes-found p (y ∷ ys) {x} e = elim (Bool-cases (p y)) [
    | inl t ↦ rw (some_inj (rw t at e), ==_refl)
    | inr t ↦ ground (arith, includes-found p ys (rw t at e))
  ]

pub any-includes :
    (p : ℕ → Bool) (a : ℕ) (xs : List ℕ) → includes a xs ≡ true → p a ≡ true → any p xs ≡ true
any-includes p a [] i h = cc
any-includes p a (x ∷ xs) i h = ground (arith, any-includes p a xs)

pub includes-map_range :
    (f : ℕ → ℕ) (start n i : ℕ)
    → start ≤ i
    → i < start + n
    → includes (f i) (map f (range_from start n)) ≡ true
includes-map_range f start zero i h k = absurd (omega arith)
includes-map_range f start (suc n) i h k = ground (arith, includes-map_range f (start + 1) n i)

pub includes-position :
    (a : ℕ) (xs : List ℕ) → includes a xs ≡ true → (j : ℕ) × (j < length xs) × (get_or xs j 0 ≡ a)
includes-position a [] e = cc
includes-position a (x ∷ xs) e = elim (Bool-cases (x == a)) [
  | inl t ↦ (0, omega arith, ground arith)
  | inr t ↦ let (j, h, g) = includes-position a xs (rw t at e) in (suc j, omega arith, g)
]

pub index_of-lt :
    (a : ℕ) (xs : List ℕ) {i : ℕ} → index_of a xs ≡ some i → (i < length xs) × (get_or xs i 0 ≡ a)
index_of-lt a [] e = cc
index_of-lt a (x ∷ xs) {i} e = elim (Bool-cases (x == a)) [
  | inl t ↦ rw (← some_inj (rw t at e)) (omega arith, ground arith)
  | inr t ↦ elim (Option-cases (index_of a xs)) [
    | inl u ↦ cc (rw (t, u) at e)
    | inr (j, u) ↦
        let (h, g) = index_of-lt a xs u in rw (← some_inj (rw (t, u) at e)) (omega arith, g)
  ]
]

pub index_of-none : (a : ℕ) (xs : List ℕ) → index_of a xs ≡ none → includes a xs ≡ false
index_of-none a [] e = refl
index_of-none a (x ∷ xs) e = ground (arith, index_of-none a xs)
