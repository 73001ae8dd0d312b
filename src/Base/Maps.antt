-- ===== src/Base/Maps.antt =====
-- `Map` and `Set` as lists in the order of insertion; `same` compares keys.
use mathlib.Core.Logic.{inl, inr}
use mathlib.Core.Path.{◌≡◌, refl, sym, ap, ◌∙◌}
use mathlib.Core.Bool.{Bool, true, false, not, ◌&&◌}
use mathlib.Core.List.{List, [], ◌∷◌, ◌++◌}
use mathlib.Core.Option.{Option, none, some}
use native.Mathlib.Omega.{arith}
use agent_poker.Base.Tests.{◌==◌, ==_iff, ==_refl, if◌then◌else◌, Bool-cases}
use agent_poker.Base.Lists.{All, any, filter_by}

module _ {ℓ κ} {K : Type ℓ} {V : Type κ} (same : K → K → Bool) where
  abbrev pub get_key : K → List (K × V) → Option V
  get_key k [] = none
  get_key k ((j, v) ∷ m) = if same j k then some v else get_key k m

  -- The entry of a key that is there keeps its place.
  abbrev pub set_key : K → V → List (K × V) → List (K × V)
  set_key k v [] = (k, v) ∷ []
  set_key k v ((j, w) ∷ m) = if same j k then (j, v) ∷ m else (j, w) ∷ set_key k v m

  abbrev pub delete_key : K → List (K × V) → List (K × V)
  delete_key k m = filter_by (λ e. not (same (e.0) k)) m

  -- A property of every value.
  abbrev pub Values {ι} : (V → Type ι) → List (K × V) → Type ι
  Values P m = All (λ e. P (e.1)) m

  pub set_key-Values {ι} :
      (P : V → Type ι) (k : K) (v : V) (m : List (K × V))
      → P v
      → Values P m
      → Values P (set_key k v m)
  set_key-Values P k v [] p h = (p, tt)
  set_key-Values P k v ((j, w) ∷ m) p h = ground (arith, set_key-Values P k v m p h.1)

  pub delete_key-Values {ι} :
      (P : V → Type ι) (k : K) (m : List (K × V)) → Values P m → Values P (delete_key k m)
  delete_key-Values P k [] h = tt
  delete_key-Values P k ((j, w) ∷ m) h = ground (arith, delete_key-Values P k m h.1)

-- `Set.prototype.add`
abbrev pub add_to {ℓ} : {A : Type ℓ} → (A → A → Bool) → A → List A → List A
add_to same a xs = if any (same a) xs then xs else xs ++ a ∷ []

-- A test that compares keys.
pub record IsKey {ℓ} {K : Type ℓ} (same : K → K → Bool) : Type ℓ where
  pub itself : (k : K) → same k k ≡ true
  pub equal : (j k : K) → same j k ≡ true → j ≡ k

swapped {ℓ} :
    {K : Type ℓ} (same : K → K → Bool) (key : IsKey same) (a b : K)
    → same b a ≡ false
    → same a b ≡ false
swapped same key a b e = elim (Bool-cases (same a b)) [
  | inl f ↦ absurd (cc (key.itself b, key.equal a b f, e))
  | inr f ↦ f
]

module _ {ℓ κ} {K : Type ℓ} {V : Type κ} (same : K → K → Bool) (key : IsKey same) where
  pub get_key-set_key :
      (j k : K) (v : V) (m : List (K × V))
      → get_key same j (set_key same k v m) ≡ (if same k j then some v else get_key same j m)
  get_key-set_key j k v [] = refl
  get_key-set_key j k v ((i, w) ∷ m) = elim (Bool-cases (same i k)) [
    | inl e ↦ rw (e, key.equal i k e) (ground arith)
    | inr e ↦ elim (Bool-cases (same i j)) [
      | inl f ↦
          rw (e, f, swapped same key k j (ap (λ x. same x k) (sym (key.equal i j f)) ∙ e)) refl
      | inr f ↦ rw (e, f) (get_key-set_key j k v m)
    ]
  ]

  pub get_key-delete_key :
      (j k : K) (m : List (K × V))
      → get_key same j (delete_key same k m) ≡ (if same k j then none else get_key same j m)
  get_key-delete_key j k [] = ground arith
  get_key-delete_key j k ((i, w) ∷ m) = elim (Bool-cases (same i k)) [
    | inl e ↦ rw (e, get_key-delete_key j k m, key.equal i k e) (ground arith)
    | inr e ↦ elim (Bool-cases (same i j)) [
      | inl f ↦
          rw (e, f, swapped same key k j (ap (λ x. same x k) (sym (key.equal i j f)) ∙ e)) refl
      | inr f ↦ rw (e, f) (get_key-delete_key j k m)
    ]
  ]

pub number_IsKey : IsKey ◌==◌
number_IsKey = record { itself = ==_refl; equal = λ a b. (==_iff a b).0 }

-- Keys of two parts.
abbrev pub both {ℓ κ} :
    {A : Type ℓ} {B : Type κ} → (A → A → Bool) → (B → B → Bool) → A × B → A × B → Bool
both same_a same_b p q = same_a (p.0) (q.0) && same_b (p.1) (q.1)

pub both-IsKey {ℓ κ} :
    {A : Type ℓ} {B : Type κ} (same_a : A → A → Bool) (same_b : B → B → Bool)
    → IsKey same_a
    → IsKey same_b
    → IsKey (both same_a same_b)
both-IsKey same_a same_b key_a key_b = record {
  itself = λ p. rw (key_a.itself (p.0), key_b.itself (p.1)) refl;
  equal = λ p q e.
      let (e_a, e_b) = parts (same_a (p.0) (q.0)) (same_b (p.1) (q.1)) e in
      λ i. (key_a.equal (p.0) (q.0) e_a i, key_b.equal (p.1) (q.1) e_b i);
}
  where
    parts : (a b : Bool) → (a && b) ≡ true → (a ≡ true) × (b ≡ true)
    parts a b h = ground arith
