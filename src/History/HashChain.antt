-- ===== src/History/HashChain.antt =====
-- packages/hand-history/src/hash-chain.ts: a hash chain over events. `sha256_hex` is the digest of
-- node:crypto and `stringify` the text that `JSON.stringify(event, Object.keys(event).sort())` makes
-- of an event; texts are lists of character codes. The list of keys selects properties at every
-- depth, so the text of an event has of its payload only what is named like a key of the event.
use agent_poker.Base.{
  ℕ, zero, suc, List, [], ◌∷◌, ◌++◌, length, Bool, true, false, not, ◌&&◌, ◌==◌, if◌then◌else◌,
}
use agent_poker.Poker.Types.{
  GameEvent, Payload, hand_start, antes_posted, blinds_posted, hole_cards_dealt,
  community_cards_dealt, player_action, street_changed, hands_shown, pot_distributed, hand_end,
}
pub mod Integrity

abbrev pub Text : Type 0
Text = List ℕ

pub data GameEventType : Type 0 where
  start antes blinds hole_cards community action street shown distributed ended : GameEventType

abbrev pub type_of : Payload → GameEventType
type_of (hand_start players dealer config) = start
type_of (antes_posted postings total) = antes
type_of (blinds_posted small big) = blinds
type_of (hole_cards_dealt holes) = hole_cards
type_of (community_cards_dealt s cards) = community
type_of (player_action id a amount) = action
type_of (street_changed s) = street
type_of (hands_shown hands) = shown
type_of (pot_distributed paid reason) = distributed
type_of (hand_end result) = ended

abbrev pub type_eq : GameEventType → GameEventType → Bool
type_eq start start = true
type_eq antes antes = true
type_eq blinds blinds = true
type_eq hole_cards hole_cards = true
type_eq community community = true
type_eq action action = true
type_eq street street = true
type_eq shown shown = true
type_eq distributed distributed = true
type_eq ended ended = true
type_eq _ _ = false

pub record HashChainEntry : Type 0 where
  pub seq : ℕ
  pub event_hash : Text
  pub previous_hash : Text
  pub chain_hash : Text

-- `'0'.repeat(n)`
abbrev zeros : ℕ → Text
zeros zero = []
zeros (suc n) = b'0' ∷ zeros n

abbrev pub genesis : Text
genesis = zeros 64

abbrev pub text_eq : Text → Text → Bool
text_eq [] [] = true
text_eq (a ∷ as') (b ∷ bs) = (a == b) && text_eq as' bs
text_eq [] (b ∷ bs) = false
text_eq (a ∷ as') [] = false

abbrev last_hash : Text → List HashChainEntry → Text
last_hash h [] = h
last_hash h (e ∷ es) = last_hash e.chain_hash es

-- `getTerminalHash`
unfoldable pub get_terminal_hash : List HashChainEntry → Text
get_terminal_hash chain = last_hash genesis chain

module _ (stringify : GameEvent → Text) (sha256_hex : Text → Text) where
  unfoldable pub hash_event : GameEvent → Text
  hash_event event = sha256_hex (stringify event)

  unfoldable pub compute_chain_hash : Text → Text → Text
  compute_chain_hash previous_hash event_hash = sha256_hex (previous_hash ++ event_hash)

  abbrev link : Text → GameEvent → HashChainEntry
  link previous event = record {
    seq = event.seq;
    event_hash = hash_event event;
    previous_hash = previous;
    chain_hash = compute_chain_hash previous (hash_event event);
  }

  unfoldable pub chain_from : Text → List GameEvent → List HashChainEntry
  chain_from previous [] = []
  chain_from previous (event ∷ events) =
      link previous event ∷ chain_from (compute_chain_hash previous (hash_event event)) events

  unfoldable pub build_hash_chain : List GameEvent → List HashChainEntry
  unfolding chain_from
  build_hash_chain events = chain_from genesis events

  -- The checks of one entry.
  unfoldable pub entry_valid : Text → GameEvent → HashChainEntry → Bool
  entry_valid expected event entry =
      (event.seq == entry.seq)
      && text_eq (hash_event event) entry.event_hash
      && text_eq entry.previous_hash expected
      && text_eq (compute_chain_hash entry.previous_hash entry.event_hash) entry.chain_hash

  -- The loop, over two lists; the lengths were compared before.
  unfoldable pub verify_from : Text → List GameEvent → List HashChainEntry → Bool
  verify_from expected [] chain = true
  verify_from expected (event ∷ events) [] = false
  verify_from expected (event ∷ events) (entry ∷ chain) =
      entry_valid expected event entry && verify_from entry.chain_hash events chain

  unfoldable pub verify_hash_chain : List GameEvent → List HashChainEntry → Bool
  unfolding verify_from
  verify_hash_chain events chain =
      if length events == length chain then verify_from genesis events chain else false
