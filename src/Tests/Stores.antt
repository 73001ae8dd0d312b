-- ===== src/Tests/Stores.antt =====
-- Runs of the event buffer, the hash chain and the ledger.
use agent_poker.Base.{
  All, ℕ, ◌≡◌, refl, List, [], ◌∷◌, some, true, ok, Ensures, arith, range_from, ◌↔◌,
}
use agent_poker.Base.Int.{pos}
use agent_poker.Poker.Types.{GameEvent, street_changed, flop, turn}
use agent_poker.Server.RingBuffer.{EventRingBuffer, BufferedEvent, get_events_since}
use agent_poker.Server.RingBuffer.Delta.{IsValid, ids, get_events_since-delta}
use agent_poker.History.HashChain.{HashChainEntry, build_hash_chain, verify_hash_chain}
use agent_poker.History.HashChain.Integrity.{verify_hash_chain_iff}
use agent_poker.Accounts.Ledger.{
  MemoryLedger, Request, new_ledger, create_account, transfer, get_total_balance, house,
  first_transfer, get_account_by_agent_id, buyin,
}
use agent_poker.Accounts.Ledger.Balance.{built, opened, transferred, Reached-balanced}
use agent_poker.Accounts.Ledger.Solvent.{HasNoDebt, Reached-HasNoDebt}
use agent_poker.Accounts.Ledger.Repeat.{transfer-again}
use agent_poker.Tests.Runs.{returns, result}

abbrev to_flop : GameEvent
to_flop = record { seq = 0; hand_id = 1; payload = street_changed flop }

abbrev to_turn : GameEvent
to_turn = record { seq = 1; hand_id = 1; payload = street_changed turn }

-- A buffer for two events, of which the first has been evicted.
abbrev two_events : EventRingBuffer
two_events = record {
  buffer =
      record { event_id = 2; event = to_flop; timestamp = 7 }
      ∷ record { event_id = 3; event = to_turn; timestamp = 8 }
      ∷ [];
  next_event_id = 4;
  max_size = 2;
}

two_events-IsValid : IsValid two_events
two_events-IsValid = record { room = omega arith; runs = (refl, (refl, tt)); bounded = omega arith }

get_events_since-delta_example :
    (es : List BufferedEvent) × (get_events_since two_events 2 ≡ some es)
    × (ids es ≡ range_from 3 1)
get_events_since-delta_example =
    get_events_since-delta two_events 2 two_events-IsValid (omega arith)

-- A text of an event, and a stand-in for the digest that adds a mark.
abbrev text_of : GameEvent → List ℕ
text_of event = event.seq ∷ event.hand_id ∷ []

abbrev digest : List ℕ → List ℕ
digest text = 7 ∷ text

abbrev honest : List HashChainEntry
honest = build_hash_chain text_of digest (to_flop ∷ to_turn ∷ [])

verify_hash_chain_iff_example :
    (verify_hash_chain text_of digest (to_flop ∷ to_turn ∷ []) honest ≡ true)
    ↔ (honest ≡ build_hash_chain text_of digest (to_flop ∷ to_turn ∷ []))
verify_hash_chain_iff_example = verify_hash_chain_iff text_of digest (to_flop ∷ to_turn ∷ []) honest

abbrev player_ledger : MemoryLedger
player_ledger = (create_account 7 new_ledger).0

abbrev buy_in : Request
buy_in = record {
  ref = 1;
  from_agent_id = house;
  to_agent_id = 7;
  amount = pos 100;
  reason = buyin;
}

buys : returns (transfer buy_in player_ledger) ≡ true
unfolding transfer create_account new_ledger first_transfer get_account_by_agent_id
buys = refl

abbrev bought : (r : MemoryLedger × ℕ) × (transfer buy_in player_ledger ≡ ok r)
bought = result (transfer buy_in player_ledger) buys

Reached-balanced_example : get_total_balance bought.0.0 ≡ pos 0
Reached-balanced_example = Reached-balanced (transferred buy_in (opened 7 built) bought.1)

Reached-HasNoDebt_example : All HasNoDebt bought.0.0.accounts
Reached-HasNoDebt_example = Reached-HasNoDebt (transferred buy_in (opened 7 built) bought.1)

transfer-again_example :
    Ensures (λ done. transfer buy_in done.0 ≡ ok done) (transfer buy_in player_ledger)
transfer-again_example = transfer-again buy_in player_ledger
