-- ===== src/Poker/Engine/Finish/Evaluated.antt =====
-- packages/poker-engine/src/engine.ts: the hands that `finishHand` evaluates.
use agent_poker.Base.{
  ℕ, ◌≤◌, ◌≡◌, refl, Bool, true, List, [], ◌∷◌, ◌++◌, length, any, All, ok, ◌==◌, ==_refl, arith,
  Bool-cases, inl, inr,
}
use agent_poker.Poker.Types.{PlayerState, Card, HandEvaluation, Outcome}
use agent_poker.Poker.Evaluate.Best.{evaluate_best_hand-best}
use agent_poker.Poker.Engine.Finish.{
  Evals, get_eval, set_eval, evals_of, evaluate_players, shown_hands,
}

-- A call that returns.
abbrev pub Returns : {A : Type 0} → Outcome A → Type 0
Returns {A} m = (a : A) × (m ≡ ok a)

abbrev pub has_eval : Evals → ℕ → Bool
has_eval evals id = any (λ (r : ℕ × HandEvaluation). r.0 == id) evals

get_eval-Returns : (evals : Evals) (id : ℕ) → has_eval evals id ≡ true → Returns (get_eval evals id)
get_eval-Returns [] id h = cc
get_eval-Returns ((key, e) ∷ evals) id h = elim (Bool-cases (key == id)) [
  | inl t ↦ (e, rw t)
  | inr t ↦ rw t (get_eval-Returns evals id (rw t at h))
]

set_eval-same :
    (id : ℕ) (e : HandEvaluation) (evals : Evals) → has_eval (set_eval id e evals) id ≡ true
set_eval-same id e [] = rw ==_refl
set_eval-same id e ((key, f) ∷ evals) = ground (arith, ==_refl id, set_eval-same id e evals)

set_eval-keeps :
    (id k : ℕ) (e : HandEvaluation) (evals : Evals)
    → has_eval evals k ≡ true
    → has_eval (set_eval id e evals) k ≡ true
set_eval-keeps id k e [] h = cc
set_eval-keeps id k e ((key, f) ∷ evals) h = ground (arith, set_eval-keeps id k e evals)

-- Everybody with five cards or more is evaluated.
pub evaluate_players-Returns :
    (community : List Card) (ps : List PlayerState) (evals : Evals)
    → All (λ p. 5 ≤ length (p.hole_cards ++ community)) ps
    → (out : Evals) × (evaluate_players community ps evals ≡ ok out)
      × ((k : ℕ) → has_eval evals k ≡ true → has_eval out k ≡ true)
      × All (λ p. has_eval out p.id ≡ true) ps
unfolding evaluate_players
evaluate_players-Returns community [] evals h = (evals, refl, λ k a. a, tt)
evaluate_players-Returns community (p ∷ ps) evals h =
    let (best, e, _, _) = evaluate_best_hand-best p.hole_cards community h.0 in
    let (out, f, keeps, all) =
      evaluate_players-Returns community ps (set_eval p.id best evals) h.1 in
    (
      out,
      rw (evaluate_players, e, f),
      λ k a. keeps k (set_eval-keeps p.id k best evals a),
      (keeps p.id (set_eval-same p.id best evals), all),
    )

pub shown_hands-Returns :
    (evals : Evals) (ps : List PlayerState)
    → All (λ p. has_eval evals p.id ≡ true) ps
    → Returns (shown_hands evals ps)
unfolding shown_hands
shown_hands-Returns evals [] h = ([], refl)
shown_hands-Returns evals (p ∷ ps) h =
    let (e, f) = get_eval-Returns evals p.id h.0 in
    let (rest, g) = shown_hands-Returns evals ps h.1 in
    (
      record { player_id = p.id; hole_cards = p.hole_cards; hand_rank = e.rank } ∷ rest,
      rw (shown_hands, f, g),
    )

pub evals_of-Returns :
    (evals : Evals) (ids : List ℕ)
    → All (λ id. has_eval evals id ≡ true) ids
    → Returns (evals_of evals ids)
unfolding evals_of
evals_of-Returns evals [] h = ([], refl)
evals_of-Returns evals (id ∷ ids) h =
    let (e, f) = get_eval-Returns evals id h.0 in
    let (rest, g) = evals_of-Returns evals ids h.1 in ((id, e) ∷ rest, rw (evals_of, f, g))
