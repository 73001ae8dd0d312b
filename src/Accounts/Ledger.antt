-- ===== src/Accounts/Ledger.antt =====
-- packages/adapters-ledger/src/memory-ledger.ts: chip accounts with double entry. Agents, accounts,
-- references and transactions are named by numbers, the house by 0; amounts are integers, since
-- `BigInt(amount)` throws for others. Dates and the currency are left out.
use agent_poker.Base.{
  ℕ, suc, ◌+◌, List, [], ◌∷◌, ◌++◌, filter_by, find_by, update_by, Option, none, some, Bool, true,
  false, not, ◌&&◌, ◌||◌, ◌==◌, if◌then◌else◌, Result, ok, err, or_throw, ◌>>=◌,
}
use agent_poker.Base.Int.{ℤ, pos, negsuc, ◌+ℤ◌, ◌-ℤ◌, ltb_ℤ, is_positive, sub_ℕ}
pub mod Balance
pub mod Repeat
pub mod Solvent

pub data TxReason : Type 0 where
  buyin pot_transfer refund admin_adjust : TxReason

pub record ChipAccount : Type 0 where
  pub id : ℕ
  pub agent_id : ℕ
  pub balance : ℤ

pub record ChipTx : Type 0 where
  pub id : ℕ
  pub ref : ℕ
  pub debit_account_id : ℕ
  pub credit_account_id : ℕ
  pub amount : ℤ
  pub reason : TxReason

-- The maps are in insertion order; `accounts_by_agent_id` is read through the accounts' agents in
-- the source's other map, so each is kept as it is there.
pub record MemoryLedger : Type 0 where
  pub accounts : List ChipAccount
  pub accounts_by_agent_id : List (ℕ × ℕ)
  pub transactions : List ChipTx
  pub tx_by_ref : List (ℕ × ChipTx)
  pub next_account_id : ℕ
  pub next_tx_id : ℕ

pub data LedgerError : Type 0 where
  insufficient_balance account_not_found duplicate_ref amount_not_positive type_error : LedgerError

abbrev pub Call : Type 0 → Type 0
Call A = Result LedgerError A

abbrev pub house : ℕ
house = 0

-- `Map.get`
abbrev pub lookup {ℓ} : {V : Type ℓ} → ℕ → List (ℕ × V) → Option V
lookup k [] = none
lookup k ((j, v) ∷ m) = if j == k then some v else lookup k m

abbrev pub has_account_id : ℕ → ChipAccount → Bool
has_account_id id a = a.id == id

-- The account with a fresh id, and the id.
abbrev pub open_account : ℕ → MemoryLedger → MemoryLedger × ℕ
open_account agent l = (
  record l {
    accounts =
        l.accounts ++ record { id = l.next_account_id; agent_id = agent; balance = pos 0 } ∷ [];
    accounts_by_agent_id = l.accounts_by_agent_id ++ (agent, l.next_account_id) ∷ [];
    next_account_id = l.next_account_id + 1;
  },
  l.next_account_id,
)

-- `createAccountSync`, and `createAccount`, which calls it.
unfoldable pub create_account : ℕ → MemoryLedger → MemoryLedger × ℕ
create_account agent l = elim (lookup agent l.accounts_by_agent_id) [
  | some id ↦ (l, id)
  | none ↦ open_account agent l
]

-- The constructor: the account of the house.
unfoldable pub new_ledger : MemoryLedger
unfolding create_account
new_ledger =
    (create_account house (record {
      accounts = [];
      accounts_by_agent_id = [];
      transactions = [];
      tx_by_ref = [];
      next_account_id = 1;
      next_tx_id = 1;
    })).0

unfoldable pub get_account_by_agent_id : ℕ → MemoryLedger → Call ChipAccount
get_account_by_agent_id agent l =
    or_throw (lookup agent l.accounts_by_agent_id) account_not_found >>= λ id.
    or_throw (find_by (has_account_id id) l.accounts) type_error

unfoldable pub get_balance : ℕ → MemoryLedger → Call ℤ
unfolding get_account_by_agent_id
get_balance agent l = get_account_by_agent_id agent l >>= λ a. ok a.balance

abbrev pub eq_ℤ : ℤ → ℤ → Bool
eq_ℤ (pos a) (pos b) = a == b
eq_ℤ (negsuc a) (negsuc b) = a == b
eq_ℤ (pos a) (negsuc b) = false
eq_ℤ (negsuc a) (pos b) = false

abbrev pub reason_eq : TxReason → TxReason → Bool
reason_eq buyin buyin = true
reason_eq pot_transfer pot_transfer = true
reason_eq refund refund = true
reason_eq admin_adjust admin_adjust = true
reason_eq _ _ = false

-- `balance -= amount` and `balance += amount`, on the account with an id.
abbrev pub debit : ℤ → ChipAccount → ChipAccount
debit amount a = record a { balance = a.balance -ℤ amount }

abbrev pub credit : ℤ → ChipAccount → ChipAccount
credit amount a = record a { balance = a.balance +ℤ amount }

pub record Request : Type 0 where
  pub ref : ℕ
  pub from_agent_id : ℕ
  pub to_agent_id : ℕ
  pub amount : ℤ
  pub reason : TxReason

abbrev pub is_same_request : Request → ChipTx → ChipAccount → ChipAccount → Bool
is_same_request r tx source target =
    (tx.debit_account_id == source.id)
    && (tx.credit_account_id == target.id)
    && eq_ℤ tx.amount r.amount
    && reason_eq tx.reason r.reason

-- A reference that was used: the same request again is answered with the old transaction.
unfoldable pub repeat_transfer : Request → ChipTx → MemoryLedger → Call (MemoryLedger × ℕ)
repeat_transfer r tx l = get_account_by_agent_id r.from_agent_id l >>= λ source.
    get_account_by_agent_id r.to_agent_id l >>= λ target.
    if is_same_request r tx source target then ok (l, tx.id) else err duplicate_ref

-- Both balances are written through references to the stored accounts, which may be one account.
abbrev pub record_transfer : Request → ChipAccount → ChipAccount → MemoryLedger → MemoryLedger
record_transfer r source target l =
    let tx : ChipTx = record {
      id = l.next_tx_id;
      ref = r.ref;
      debit_account_id = source.id;
      credit_account_id = target.id;
      amount = r.amount;
      reason = r.reason;
    } in
    record l {
      accounts =
          update_by (has_account_id target.id) (credit r.amount)
            (update_by (has_account_id source.id) (debit r.amount) l.accounts);
      transactions = l.transactions ++ tx ∷ [];
      tx_by_ref = l.tx_by_ref ++ (r.ref, tx) ∷ [];
      next_tx_id = l.next_tx_id + 1;
    }

-- A reference that is new.
unfoldable pub first_transfer : Request → MemoryLedger → Call (MemoryLedger × ℕ)
first_transfer r l =
    if not (is_positive r.amount)
    then err amount_not_positive
    else get_account_by_agent_id r.from_agent_id l >>= λ source.
        get_account_by_agent_id r.to_agent_id l >>= λ target.
        if not (r.from_agent_id == house) && ltb_ℤ source.balance r.amount
        then err insufficient_balance
        else ok (record_transfer r source target l, l.next_tx_id)

unfoldable pub transfer : Request → MemoryLedger → Call (MemoryLedger × ℕ)
transfer r l = elim (lookup r.ref l.tx_by_ref) [
  | some tx ↦ repeat_transfer r tx l
  | none ↦ first_transfer r l
]

unfoldable pub get_transactions : ℕ → MemoryLedger → Call (List ChipTx)
get_transactions agent l = get_account_by_agent_id agent l >>= λ a. ok (
    filter_by (λ tx. (tx.debit_account_id == a.id) || (tx.credit_account_id == a.id))
      l.transactions)

-- The loop of `getTotalBalance`.
abbrev pub total_from : ℤ → List ChipAccount → ℤ
total_from total [] = total
total_from total (a ∷ as') = total_from (total +ℤ a.balance) as'

unfoldable pub get_total_balance : MemoryLedger → ℤ
get_total_balance l = total_from (pos 0) l.accounts
