-- ===== src/History/HashChain/Integrity.antt =====
-- packages/hand-history/src/hash-chain.ts: which chains are accepted.
use agent_poker.Base.{
  suc, ◌≡◌, refl, ap, ap₂, ◌∙◌, ◌↔◌, List, [], ◌∷◌, length, Bool, true, ◌&&◌, ◌==◌, arith,
  Bool-cases, inl, inr, ==_refl, IsKey,
}
use agent_poker.Poker.Types.{GameEvent}
use agent_poker.History.HashChain.{
  GameEventType, type_eq, start, antes, blinds, hole_cards, community, action, street, shown,
  distributed, ended, Text, HashChainEntry, genesis, text_eq, hash_event, compute_chain_hash,
  chain_from, build_hash_chain, entry_valid, verify_from, verify_hash_chain,
}

pub text_eq_refl : (a : Text) → text_eq a a ≡ true
text_eq_refl [] = refl
text_eq_refl (x ∷ xs) = rw (==_refl, text_eq_refl xs)

pub type_eq_refl : (t : GameEventType) → type_eq t t ≡ true
type_eq_refl start = refl
type_eq_refl antes = refl
type_eq_refl blinds = refl
type_eq_refl hole_cards = refl
type_eq_refl community = refl
type_eq_refl action = refl
type_eq_refl street = refl
type_eq_refl shown = refl
type_eq_refl distributed = refl
type_eq_refl ended = refl

pub text_eq-eq : (a b : Text) → text_eq a b ≡ true → a ≡ b
text_eq-eq [] [] h = refl
text_eq-eq (x ∷ xs) (y ∷ ys) h = ground (arith, text_eq-eq xs ys)
text_eq-eq [] (y ∷ ys) h = cc
text_eq-eq (x ∷ xs) [] h = cc

pub text_IsKey : IsKey text_eq
text_IsKey = record { itself = text_eq_refl; equal = text_eq-eq }

both : (a b : Bool) → (a && b) ≡ true → (a ≡ true) × (b ≡ true)
both a b h = ground arith

module _ (stringify : GameEvent → Text) (sha256_hex : Text → Text) where
  length-chain_from :
      (previous : Text) (events : List GameEvent)
      → length (chain_from stringify sha256_hex previous events) ≡ length events
  unfolding chain_from
  length-chain_from previous [] = refl
  length-chain_from previous (event ∷ events) = ap suc (
      length-chain_from
        (compute_chain_hash stringify sha256_hex previous (hash_event stringify sha256_hex event))
        events)

  entry_accepts :
      (previous : Text) (event : GameEvent)
      → entry_valid stringify sha256_hex previous event (record {
        seq = event.seq;
        event_hash = hash_event stringify sha256_hex event;
        previous_hash = previous;
        chain_hash =
            compute_chain_hash stringify sha256_hex previous
              (hash_event stringify sha256_hex event);
      })
        ≡ true
  unfolding entry_valid
  entry_accepts previous event = simp (==_refl, text_eq_refl)

  verify_from-chain_from :
      (previous : Text) (events : List GameEvent)
      → verify_from stringify sha256_hex previous events
          (chain_from stringify sha256_hex previous events)
        ≡ true
  unfolding verify_from chain_from
  verify_from-chain_from previous [] = refl
  verify_from-chain_from previous (event ∷ events) =
      let next =
        compute_chain_hash stringify sha256_hex previous (hash_event stringify sha256_hex event) in
      rw (entry_accepts previous event) (verify_from-chain_from next events)

  entry_unique :
      (expected : Text) (event : GameEvent) (entry : HashChainEntry)
      → entry_valid stringify sha256_hex expected event entry ≡ true
      → entry ≡ record {
        seq = event.seq;
        event_hash = hash_event stringify sha256_hex event;
        previous_hash = expected;
        chain_hash =
            compute_chain_hash stringify sha256_hex expected
              (hash_event stringify sha256_hex event);
      }
  unfolding entry_valid
  entry_unique expected event entry h = ground (
    arith,
    text_eq-eq (hash_event stringify sha256_hex event) entry.event_hash,
    text_eq-eq entry.previous_hash expected,
    text_eq-eq (compute_chain_hash stringify sha256_hex entry.previous_hash entry.event_hash)
        entry.chain_hash,
  )

  verify_from_unique :
      (expected : Text) (events : List GameEvent) (chain : List HashChainEntry)
      → length events ≡ length chain
      → verify_from stringify sha256_hex expected events chain ≡ true
      → chain ≡ chain_from stringify sha256_hex expected events
  unfolding verify_from chain_from
  verify_from_unique expected [] [] e h = refl
  verify_from_unique expected [] (c ∷ cs) e h = absurd (omega arith)
  verify_from_unique expected (event ∷ events) [] e h = cc
  verify_from_unique expected (event ∷ events) (c ∷ cs) e h =
      let (first, later) = both _ _ h in
      let same = entry_unique expected event c first in
      let rest = verify_from_unique c.chain_hash events cs (omega arith) later in
      ap₂ ◌∷◌ same (
        rest
        ∙ ap (λ x. chain_from stringify sha256_hex x events)
            (ap (λ (x : HashChainEntry). x.chain_hash) same))

  -- A chain is accepted for a list of events exactly when it is the one that is built from them.
  pub verify_hash_chain_iff :
      (events : List GameEvent) (chain : List HashChainEntry)
      → (verify_hash_chain stringify sha256_hex events chain ≡ true)
        ↔ (chain ≡ build_hash_chain stringify sha256_hex events)
  unfolding verify_hash_chain build_hash_chain
  verify_hash_chain_iff events chain = (
    λ h. elim (Bool-cases (length events == length chain)) [
      | inl e ↦ verify_from_unique genesis events chain (ground arith) (rw e at h)
      | inr e ↦ cc (rw e at h)
    ],
    λ e. rw (e, length-chain_from genesis events, ==_refl) (verify_from-chain_from genesis events),
  )
