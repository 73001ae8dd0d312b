-- ===== src/Poker/Engine/Invariant.antt =====
-- packages/poker-engine/src/engine.ts: what holds of a table between two actions.
use agent_poker.Base.{
  ℕ, ◌+◌, ◌≤◌, ◌<◌, ◌≡◌, refl, sym, ◌∙◌, Bool, true, false, not, List, [], ◌∷◌, map, length,
  filter_by, update_by, any, All, ◌==◌, arith,
}
use agent_poker.Base.Laws.{
  Distinct, All-map_keep, All-update_by, map-map_keep, map-update_by, sum_by-map_keep,
  sum_by-update_keep,
}
use agent_poker.Poker.Types.{GameState, PlayerState, Pot}
use agent_poker.Poker.SidePots.Conserve.{bet_total, pot_total, AllInPaid}
use agent_poker.Poker.Positions.{is_free}
use agent_poker.Poker.Engine.State.{non_folded, chip_sum, pot_sum}
use agent_poker.Poker.Engine.Finish.Claims.{AllInStays}

-- All chips at the table: the stacks and the pots.
abbrev pub money : GameState → ℕ
money s = chip_sum s.players + pot_sum s

-- The pots hold what the players have put in; the ids are distinct; an all-in player has put
-- something in and has not folded; every player has brought chips; somebody has not folded.
pub record Sound (players : List PlayerState) (pots : List Pot) : Type 0 where
  pub funded : pot_total pots ≡ bet_total players
  pub ids : Distinct (map (λ p. p.id) players)
  pub paid : AllInPaid players
  pub stays : AllInStays players
  pub stakes : All (λ p. 0 < p.chips + p.total_bet_this_hand) players
  pub somebody : 1 ≤ length (non_folded players)

-- The players at the seat of the turn can act.
abbrev pub Acts : ℕ → List PlayerState → Type 0
Acts seat players =
    All (λ p. (p.seat_index == seat) ≡ true → (p.has_folded ≡ false) × (p.is_all_in ≡ false))
      players

-- The invariant of a hand that goes on.
pub record IsPlaying (s : GameState) : Type 0 where
  pub sound : Sound s.players s.pots
  pub goes_on : s.is_hand_complete ≡ false
  pub turn : Acts s.active_player_seat_index s.players
  pub two : 2 ≤ length (non_folded s.players)

pub somebody-any :
    (ps : List PlayerState) → 1 ≤ length (non_folded ps) → any (λ p. not p.has_folded) ps ≡ true
somebody-any [] h = absurd (omega arith)
somebody-any (p ∷ ps) h = ground (arith, somebody-any ps)

-- A change of each player that keeps what the invariant reads.
pub record Harmless (f : PlayerState → PlayerState) : Type 0 where
  pub id : (p : PlayerState) → (f p).id ≡ p.id
  pub chips : (p : PlayerState) → (f p).chips ≡ p.chips
  pub total : (p : PlayerState) → (f p).total_bet_this_hand ≡ p.total_bet_this_hand
  pub folded : (p : PlayerState) → (f p).has_folded ≡ p.has_folded
  pub all_in : (p : PlayerState) → (f p).is_all_in ≡ p.is_all_in

length-non_folded :
    (f : PlayerState → PlayerState) (ps : List PlayerState)
    → ((p : PlayerState) → (f p).has_folded ≡ p.has_folded)
    → length (non_folded (map f ps)) ≡ length (non_folded ps)
length-non_folded f [] h = refl
length-non_folded f (p ∷ ps) h = ground (arith, h p, length-non_folded f ps h)

pub length-non_folded-Harmless :
    {f : PlayerState → PlayerState} (ps : List PlayerState)
    → Harmless f
    → length (non_folded (map f ps)) ≡ length (non_folded ps)
length-non_folded-Harmless {f} ps h = length-non_folded f ps h.folded

pub Sound-map :
    {f : PlayerState → PlayerState} {ps : List PlayerState} {pots : List Pot}
    → Harmless f
    → Sound ps pots
    → Sound (map f ps) pots
Sound-map {f} {ps} {pots} h s = record {
  funded = s.funded ∙ sym (sum_by-map_keep _ f ps h.total);
  ids = rw (map-map_keep (λ p. p.id) f ps h.id) s.ids;
  paid = All-map_keep _ f ps (λ p k. rw (h.all_in p, h.total p) k) s.paid;
  stays = All-map_keep _ f ps (λ p k. rw (h.all_in p, h.folded p) k) s.stays;
  stakes = All-map_keep _ f ps (λ p k. rw (h.chips p, h.total p) k) s.stakes;
  somebody = rw (length-non_folded f ps h.folded) s.somebody;
}

pub length-update :
    (f : PlayerState → PlayerState) (p : PlayerState → Bool) (ps : List PlayerState)
    → ((x : PlayerState) → (f x).has_folded ≡ x.has_folded)
    → length (non_folded (update_by p f ps)) ≡ length (non_folded ps)
length-update f p [] h = refl
length-update f p (x ∷ xs) h = ground (arith, h x, length-update f p xs h)

pub Sound-update :
    {f : PlayerState → PlayerState} (p : PlayerState → Bool) {ps : List PlayerState}
    {pots : List Pot}
    → Harmless f
    → Sound ps pots
    → Sound (update_by p f ps) pots
Sound-update {f} p {ps} {pots} h s = record {
  funded = s.funded ∙ sym (sum_by-update_keep _ f p ps h.total);
  ids = rw (map-update_by (λ p. p.id) f p ps h.id) s.ids;
  paid = All-update_by _ f p ps (λ x _ k. rw (h.all_in x, h.total x) k) s.paid;
  stays = All-update_by _ f p ps (λ x _ k. rw (h.all_in x, h.folded x) k) s.stays;
  stakes = All-update_by _ f p ps (λ x _ k. rw (h.chips x, h.total x) k) s.stakes;
  somebody = rw (length-update f p ps h.folded) s.somebody;
}

-- A seat that is free to act has only players who can act.
pub free-Acts :
    (seat : ℕ) (ps : List PlayerState)
    → is_free
        (map (λ p. p.seat_index) (filter_by (λ p. p.has_folded) ps))
        (map (λ p. p.seat_index) (filter_by (λ p. p.is_all_in) ps))
        seat
      ≡ true
    → Acts seat ps
free-Acts seat [] h = tt
free-Acts seat (p ∷ ps) h = (ground arith, free-Acts seat ps (ground arith))
