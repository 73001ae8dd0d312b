-- ===== src/Poker/Engine/Board.antt =====
-- packages/poker-engine/src/engine.ts: the loop of `dealRemainingCommunity`.
use agent_poker.Base.{
  ℕ, zero, suc, ◌+◌, ◌≤◌, ◌≡◌, refl, ap, ◌∙◌, some, List, [], ◌∷◌, ◌++◌, length, length-append, ok,
  ◌==◌, ltb, arith, Bool-cases, inl, inr, if◌then◌else◌,
}
use agent_poker.Poker.Types.{Card, GameState, GameEvent, Street, community_cards_dealt}
use agent_poker.Poker.Deck.{pop_card, deal_cards}
use agent_poker.Poker.Engine.Conserve.{Turn}
use agent_poker.Poker.Engine.Finish.{event}
use agent_poker.Poker.Engine.Streets.{
  deal_board, deal_until_five, deal_remaining_community, board_street,
}

-- A deck with a card in it has a last one.
pop_card-returns :
    (deck : List Card)
    → 1 ≤ length deck
    → (c : Card) × (rest : List Card) × (pop_card deck ≡ some (c, rest))
      × (length rest + 1 ≡ length deck)
unfolding pop_card
pop_card-returns [] h = absurd (omega arith)
pop_card-returns (c ∷ []) h = (c, [], refl, refl)
pop_card-returns (c ∷ d ∷ deck) h =
    let (last, front, e, n) = pop_card-returns (d ∷ deck) (omega arith) in
    (last, c ∷ front, rw e, omega (arith, n))

-- A deck with enough cards deals as many as are asked for, and keeps the others.
pub deal_cards-returns :
    (deck : List Card) (count : ℕ)
    → count ≤ length deck
    → (r : List Card × List Card) × (deal_cards deck count ≡ ok r)
      × (length r.0 ≡ count)
      × (length r.1 + count ≡ length deck)
unfolding deal_cards
deal_cards-returns deck zero h = (([], deck), refl, refl, omega arith)
deal_cards-returns deck (suc count) h =
    let (c, rest, e, n) = pop_card-returns deck (omega arith) in
    let ((cards, left), f, k, m) = deal_cards-returns rest count (omega (arith, n)) in
    ((c ∷ cards, left), rw (deal_cards, e, f), ap suc k, omega (arith, n, m))

-- With enough cards the board grows by as many as the deck loses.
deal_board-returns :
    (count : ℕ) (name : ℕ → Street) (s : GameState) (events : List GameEvent)
    → count ≤ length s.deck
    → (r : Turn) × (deal_board count name s events ≡ ok r)
      × (length r.0.community_cards ≡ length s.community_cards + count)
      × (length r.0.deck + count ≡ length s.deck)
unfolding deal_board
deal_board-returns count name s events h =
    let ((cards, left), e, k, m) = deal_cards-returns s.deck count h in
    let board = s.community_cards ++ cards in
    let told = event s (community_cards_dealt (name (length board)) cards) in
    (
      (record s { deck = left; community_cards = board }, events ++ told ∷ []),
      rw (deal_board, e),
      length-append s.community_cards cards ∙ omega (arith, k),
      m,
    )

deal_until_five-returns :
    (fuel : ℕ) (s : GameState) (events : List GameEvent)
    → 5 ≤ length s.community_cards + length s.deck
    → 5 ≤ length s.community_cards + fuel
    → length s.community_cards ≤ 5
    → (r : Turn) × (deal_until_five fuel s events ≡ ok r) × (length r.0.community_cards ≡ 5)
unfolding deal_until_five
deal_until_five-returns zero s events h k m = ((s, events), refl, omega (arith, k, m))
deal_until_five-returns (suc fuel) s events h k m =
    elim (Bool-cases (ltb (length s.community_cards) 5)) [
      | inr full ↦ ((s, events), rw full, ground arith)
      | inl short ↦
          let count : ℕ = if length s.community_cards == 0 then 3 else 1 in
          let (r, e, board, deck) = deal_board-returns count board_street s events (ground arith) in
          let (t, f, five) =
            deal_until_five-returns fuel r.0 r.1 (omega (arith, board, deck))
              (ground (arith, board)) (ground (arith, board)) in
          (t, rw (short, e, f), five)
    ]

-- With at most five cards on the board, and at least five on the board and in the deck together,
-- the loop that deals the rest ends without an error and with five cards on the board.
pub deal_remaining_community-returns :
    (s : GameState) (events : List GameEvent)
    → 5 ≤ length s.community_cards + length s.deck
    → length s.community_cards ≤ 5
    → (r : Turn) × (deal_remaining_community s events ≡ ok r) × (length r.0.community_cards ≡ 5)
unfolding deal_remaining_community
deal_remaining_community-returns s events h m = deal_until_five-returns 5 s events h (omega arith) m
