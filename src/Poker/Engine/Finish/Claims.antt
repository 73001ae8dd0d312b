-- ===== src/Poker/Engine/Finish/Claims.antt =====
-- packages/poker-engine/src/side-pots.ts and engine.ts: the players who can win a side pot.
use agent_poker.Base.{
  ℕ, ◌-◌, ◌≡◌, refl, Bool, true, false, not, ◌&&◌, ◌||◌, List, [], ◌∷◌, ◌++◌, map, filter_by, any,
  All, sum_by, arith, Bool-cases, inl, inr, ==_refl, ◌==◌, ltb,
}
use agent_poker.Base.Laws.{All-map, any-append, any_self, find_by-key, Distinct}
use agent_poker.Poker.Types.{PlayerState, Pot}
use agent_poker.Poker.SidePots.{
  push_if, add_eligible, level_pots, add_to_last, push_rest, eligible_above, close_pots,
  side_pots_of, all_in_levels, calculate_side_pots,
}
use agent_poker.Poker.SidePots.Conserve.{all_in_levels-All}
use agent_poker.Poker.Engine.Finish.{is_in_hand}
use agent_poker.Poker.Engine.Finish.Pots.{Claimed}

-- An all-in player has not folded.
abbrev pub AllInStays : List PlayerState → Type 0
AllInStays players = All (λ p. p.is_all_in ≡ true → p.has_folded ≡ false) players

abbrev pub InHand : (ℕ → Bool) → List PlayerState → Type 0
InHand f players = All (λ p. p.has_folded ≡ false → f p.id ≡ true) players

pub InHand-all :
    (players : List PlayerState)
    → Distinct (map (λ p. p.id) players)
    → InHand (is_in_hand players) players
InHand-all players d =
    All-map _ _ (λ p found open_hand. ground (arith, found, open_hand)) players
      (find_by-key (λ p. p.id) players d)

push_if-keeps :
    (f : ℕ → Bool) (test : Bool) (id : ℕ) (ids : List ℕ)
    → any f ids ≡ true
    → any f (push_if test id ids) ≡ true
unfolding push_if
push_if-keeps f true id ids h = rw (any-append, h)
push_if-keeps f false id ids h = h

push_if-adds :
    (f : ℕ → Bool) (test : Bool) (id : ℕ) (ids : List ℕ)
    → test ≡ true
    → f id ≡ true
    → any f (push_if test id ids) ≡ true
unfolding push_if
push_if-adds f test id ids t h = rw (t, any-append, h) (or_true (any f ids))
  where
    or_true : (b : Bool) → (b || true) ≡ true
    or_true true = refl
    or_true false = refl

-- The eligible players of a level only grow.
add_eligible-keeps :
    (f : ℕ → Bool) (level : ℕ) (ps : List PlayerState) (ids : List ℕ)
    → any f ids ≡ true
    → any f (add_eligible level ps ids) ≡ true
unfolding add_eligible
add_eligible-keeps f level [] ids h = h
add_eligible-keeps f level (p ∷ ps) ids h =
    add_eligible-keeps f level ps _ (push_if-keeps f _ p.id _ (push_if-keeps f _ p.id ids h))

-- A player who is all-in at the level is eligible.
add_eligible-claims :
    (f : ℕ → Bool) (level : ℕ) (ps : List PlayerState) (ids : List ℕ)
    → InHand f ps
    → AllInStays ps
    → any (λ p. p.is_all_in && (p.total_bet_this_hand == level)) ps ≡ true
    → any f (add_eligible level ps ids) ≡ true
unfolding add_eligible
add_eligible-claims f level [] ids h s e = cc
add_eligible-claims f level (p ∷ ps) ids h s e =
    elim (Bool-cases (p.is_all_in && (p.total_bet_this_hand == level))) [
      | inl here ↦
          let all_in : p.is_all_in ≡ true = ground arith in
          let stays = s.0 all_in in
          add_eligible-keeps f level ps _
            (push_if-keeps f _ p.id _ (push_if-adds f _ p.id ids (ground arith) (h.0 stays)))
      | inr there ↦ add_eligible-claims f level ps _ h.1 s.1 (rw there at e)
    ]

above-InHand :
    (top : ℕ) (f : ℕ → Bool) (ps : List PlayerState)
    → InHand f ps
    → All (λ id. f id ≡ true) (eligible_above top ps)
above-InHand top f [] h = tt
above-InHand top f (p ∷ ps) h =
    let rest = above-InHand top f ps h.1 in
    elim (Bool-cases (not p.has_folded && ltb top p.total_bet_this_hand)) [
      | inl above ↦ rw above (h.0 (ground arith), rest)
      | inr below ↦ rw below rest
    ]

InHand-any :
    (f : ℕ → Bool) (ps : List PlayerState)
    → InHand f ps
    → any (λ p. not p.has_folded) ps ≡ true
    → any f (map (λ p. p.id) (filter_by (λ p. not p.has_folded) ps)) ≡ true
InHand-any f [] h e = e
InHand-any f (p ∷ ps) h e = elim (Bool-cases p.has_folded) [
  | inl folded ↦ rw folded (InHand-any f ps h.1 (rw folded at e))
  | inr open_hand ↦ rw (open_hand, h.0 open_hand)
]

module _ (players : List PlayerState) (f : ℕ → Bool) (h : InHand f players)
    (s : AllInStays players) where
  abbrev IsWinnable : Pot → Type 0
  IsWinnable q = any f q.eligible ≡ true

  level_pots-IsWinnable :
      (previous : ℕ) (levels : List ℕ)
      → All (λ l. any (λ p. p.is_all_in && (p.total_bet_this_hand == l)) players ≡ true) levels
      → All IsWinnable (level_pots players previous levels)
  unfolding level_pots
  level_pots-IsWinnable previous [] a = tt
  level_pots-IsWinnable previous (level ∷ levels) a =
      let skipped = level_pots-IsWinnable previous levels a.1 in
      let rest = level_pots-IsWinnable level levels a.1 in
      let claims = add_eligible-claims f level players [] h s a.0 in
      ground (arith, skipped, rest, claims)

  add_to_last-IsWinnable :
      (pots : List Pot) (extra : ℕ) → All IsWinnable pots → All IsWinnable (add_to_last pots extra)
  add_to_last-IsWinnable [] extra a = tt
  add_to_last-IsWinnable (q ∷ []) extra a = a
  add_to_last-IsWinnable (q ∷ r ∷ rs) extra a = (a.0, add_to_last-IsWinnable (r ∷ rs) extra a.1)

  All-append_one :
      (pots : List Pot) (q : Pot)
      → All IsWinnable pots
      → IsWinnable q
      → All IsWinnable (pots ++ q ∷ [])
  All-append_one [] q a b = (b, tt)
  All-append_one (p ∷ ps) q a b = (a.0, All-append_one ps q a.1 b)

  push_rest-IsWinnable :
      (pots : List Pot) (amount : ℕ) (ids : List ℕ)
      → All IsWinnable pots
      → All (λ id. f id ≡ true) ids
      → All IsWinnable (push_rest pots amount ids)
  unfolding push_rest
  push_rest-IsWinnable pots amount [] a b = add_to_last-IsWinnable pots amount a
  push_rest-IsWinnable pots amount (id ∷ ids) a b = All-append_one pots _ a (rw b.0)

  close_pots-IsWinnable :
      (top : ℕ) (pots : List Pot)
      → All IsWinnable pots
      → All IsWinnable (close_pots players top pots)
  unfolding close_pots
  close_pots-IsWinnable top pots a =
      let pushed = λ (amount : ℕ).
        push_rest-IsWinnable pots amount (eligible_above top players) a
          (above-InHand top f players h) in
      elim (Bool-cases (ltb 0 (sum_by (λ p. p.total_bet_this_hand - top) players))) [
        | inl more ↦ rw more (pushed _)
        | inr done ↦ rw done a
      ]

  -- The pots of any levels that are totals of all-in players can be won, if there is a level or
  -- somebody is in the hand.
  side_pots_of-IsWinnable :
      (levels : List ℕ)
      → All (λ l. any (λ p. p.is_all_in && (p.total_bet_this_hand == l)) players ≡ true) levels
      → any (λ p. not p.has_folded) players ≡ true
      → All IsWinnable (side_pots_of players levels)
  unfolding side_pots_of
  side_pots_of-IsWinnable [] a e = (InHand-any f players h e, tt)
  side_pots_of-IsWinnable (level ∷ levels) a e =
      close_pots-IsWinnable _ _ (level_pots-IsWinnable 0 (level ∷ levels) a)

-- Every side pot has an eligible player who is still in the hand, if the ids are distinct, no all-
-- in player has folded and somebody is in the hand.
pub calculate_side_pots-Claimed :
    (players : List PlayerState)
    → Distinct (map (λ p. p.id) players)
    → AllInStays players
    → any (λ p. not p.has_folded) players ≡ true
    → All (Claimed players) (calculate_side_pots players)
unfolding calculate_side_pots
calculate_side_pots-Claimed players d s e =
    side_pots_of-IsWinnable players (is_in_hand players) (InHand-all players d) s
      (all_in_levels players)
      (all_in_levels-All
        (λ l. any (λ p. p.is_all_in && (p.total_bet_this_hand == l)) players ≡ true) players
        (All-map _ _ (λ x found all_in. found (rw (all_in, ==_refl))) players
          (any_self (λ x p. p.is_all_in && (p.total_bet_this_hand == x.total_bet_this_hand))
            players)))
      e
