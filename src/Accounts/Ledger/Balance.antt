-- ===== src/Accounts/Ledger/Balance.antt =====
-- packages/adapters-ledger/src/memory-ledger.ts: the total of the balances.
use agent_poker.Base.{
  ℕ, ◌≡◌, refl, sym, ap, ◌∙◌, List, [], ◌∷◌, ◌++◌, find_by, update_by, any, some, Bool, true, not,
  ◌&&◌, ◌==◌, ok, err, or_throw, or_throw-ok, Ensures, Ensures-then, Ensures-if, Ensures-ok,
  Ensures-mono, arith, Bool-cases, Option-cases, ==_refl, >>=-eq-ok, inl, inr,
}
use agent_poker.Base.Laws.{some_inj}
use agent_poker.Base.Int.{ℤ, pos, ◌+ℤ◌, ◌-ℤ◌, is_positive, ltb_ℤ, int_laws}
use agent_poker.Accounts.Ledger.{
  ChipAccount, ChipTx, MemoryLedger, Request, house, open_account, is_same_request, lookup,
  has_account_id, create_account, new_ledger, get_account_by_agent_id, debit, credit,
  repeat_transfer, record_transfer, first_transfer, transfer, total_from, get_total_balance,
  account_not_found, type_error, duplicate_ref,
}

sum : List ChipAccount → ℤ
sum [] = pos 0
sum (a ∷ as') = a.balance +ℤ sum as'

total_from-sum :
    (total : ℤ) (accounts : List ChipAccount) → total_from total accounts ≡ total +ℤ sum accounts
unfolding sum
total_from-sum total [] = omega int_laws
total_from-sum total (a ∷ as') = total_from-sum (total +ℤ a.balance) as' ∙ omega int_laws

sum-append_zero :
    (accounts : List ChipAccount) (a : ChipAccount)
    → a.balance ≡ pos 0
    → sum (accounts ++ a ∷ []) ≡ sum accounts
unfolding sum
sum-append_zero [] a h = rw h (omega int_laws)
sum-append_zero (x ∷ xs) a h = ap (λ n. x.balance +ℤ n) (sum-append_zero xs a h)

sum-debit :
    (amount : ℤ) (p : ChipAccount → Bool) (accounts : List ChipAccount)
    → any p accounts ≡ true
    → sum (update_by p (debit amount) accounts) ≡ sum accounts -ℤ amount
unfolding sum
sum-debit amount p [] h = cc
sum-debit amount p (x ∷ xs) h = elim (Bool-cases (p x)) [
  | inl t ↦ rw t (omega int_laws)
  | inr t ↦ rw (t, sum-debit amount p xs (rw t at h)) (omega int_laws)
]

sum-credit :
    (amount : ℤ) (p : ChipAccount → Bool) (accounts : List ChipAccount)
    → any p accounts ≡ true
    → sum (update_by p (credit amount) accounts) ≡ sum accounts +ℤ amount
unfolding sum
sum-credit amount p [] h = cc
sum-credit amount p (x ∷ xs) h = elim (Bool-cases (p x)) [
  | inl t ↦ rw t (omega int_laws)
  | inr t ↦ rw (t, sum-credit amount p xs (rw t at h)) (omega int_laws)
]

-- The account that is found is stored under the id by which it is found.
found-id :
    (id : ℕ) (accounts : List ChipAccount) {a : ChipAccount}
    → find_by (has_account_id id) accounts ≡ some a
    → any (has_account_id a.id) accounts ≡ true
found-id id [] e = cc
found-id id (x ∷ xs) {a} e = elim (Bool-cases (x.id == id)) [
  | inl t ↦ let same : x ≡ a = some_inj (rw t at e) in rw (sym same, ==_refl)
  | inr t ↦
      let stored : any (has_account_id a.id) xs ≡ true = found-id id xs (rw t at e) in ground arith
]

any-debit :
    (amount : ℤ) (id other : ℕ) (accounts : List ChipAccount)
    → any (has_account_id other) (update_by (has_account_id id) (debit amount) accounts)
      ≡ any (has_account_id other) accounts
any-debit amount id other [] = refl
any-debit amount id other (x ∷ xs) = elim (Bool-cases (x.id == id)) [
  | inl t ↦ rw t
  | inr t ↦ rw (t, any-debit amount id other xs)
]

account_stored :
    (agent : ℕ) (l : MemoryLedger) {a : ChipAccount}
    → get_account_by_agent_id agent l ≡ ok a
    → any (has_account_id a.id) l.accounts ≡ true
unfolding get_account_by_agent_id
account_stored agent l {a} e =
    let s = >>=-eq-ok (or_throw (lookup agent l.accounts_by_agent_id) account_not_found) _ e in
    found-id s.0 l.accounts (or_throw-ok _ type_error s.2)

total-sum : (l : MemoryLedger) → get_total_balance l ≡ sum l.accounts
unfolding get_total_balance
total-sum l = total_from-sum (pos 0) l.accounts ∙ omega int_laws

-- Opening an account, or finding the one an agent has, leaves the total as it is.
pub create_account-total :
    (agent : ℕ) (l : MemoryLedger)
    → get_total_balance ((create_account agent l).0) ≡ get_total_balance l
unfolding create_account get_total_balance
create_account-total agent l = elim (Option-cases (lookup agent l.accounts_by_agent_id)) [
  | inl t ↦
      rw (create_account, t)
        (total-sum (open_account agent l).0 ∙ sum-append_zero l.accounts _ refl ∙ sym (total-sum l))
  | inr t ↦ rw (create_account, t.1)
]

record_transfer-total :
    (r : Request) (source target : ChipAccount) (l : MemoryLedger)
    → any (has_account_id source.id) l.accounts ≡ true
    → any (has_account_id target.id) l.accounts ≡ true
    → get_total_balance (record_transfer r source target l) ≡ get_total_balance l
record_transfer-total r source target l h k =
    total-sum _
    ∙ sum-credit r.amount (has_account_id target.id) _
        (any-debit r.amount source.id target.id l.accounts ∙ k)
    ∙ ap (λ n. n +ℤ r.amount) (sum-debit r.amount (has_account_id source.id) l.accounts h)
    ∙ omega int_laws
    ∙ sym (total-sum l)

-- A repeated request leaves the ledger as it is.
pub repeat_transfer-same :
    (r : Request) (tx : ChipTx) (l : MemoryLedger)
    → Ensures (λ done. done.0 ≡ l) (repeat_transfer r tx l)
unfolding repeat_transfer
repeat_transfer-same r tx l =
    Ensures-then _ (get_account_by_agent_id r.from_agent_id l) _ (λ source e.
      Ensures-then _ (get_account_by_agent_id r.to_agent_id l) _ (λ target f.
        Ensures-if _ (is_same_request r tx source target) (ok (l, tx.id)) (err duplicate_ref)
          (λ _. refl) (λ _. tt)))

-- A transfer that returns, the first of its reference or a repeated one, leaves the total of the
-- balances as it is.
pub transfer-total :
    (r : Request) (l : MemoryLedger)
    → Ensures (λ done. get_total_balance done.0 ≡ get_total_balance l) (transfer r l)
unfolding transfer first_transfer
transfer-total r l = elim (Option-cases (lookup r.ref l.tx_by_ref)) [
  | inl t ↦
      rw (transfer, t)
        (Ensures-if _ (not (is_positive r.amount)) _ _ (λ _. tt)
          (λ _. Ensures-then _ (get_account_by_agent_id r.from_agent_id l) _ (λ source e.
            Ensures-then _ (get_account_by_agent_id r.to_agent_id l) _ (λ target f.
              Ensures-if _ (not (r.from_agent_id == house) && ltb_ℤ source.balance r.amount) _ _
                (λ _. tt)
                (λ _.
                  record_transfer-total r source target l (account_stored _ l e)
                    (account_stored _ l f))))))
  | inr t ↦
      rw (transfer, t.1)
        (Ensures-mono _ _ (repeat_transfer r t.0 l) (repeat_transfer-same r t.0 l)
          (λ done same. ap get_total_balance same))
]

-- The ledgers that calls lead to from the constructor's; a call that throws changes nothing.
pub data Reached : MemoryLedger → Type 0 where
  built : Reached new_ledger
  opened : {l : MemoryLedger} (agent : ℕ) → Reached l → Reached ((create_account agent l).0)
  transferred :
      {l : MemoryLedger} (r : Request) {done : MemoryLedger × ℕ}
      → Reached l
      → transfer r l ≡ ok done
      → Reached done.0

-- The balances of every ledger that calls lead to from the constructor's add up to zero.
pub Reached-balanced : {l : MemoryLedger} → Reached l → get_total_balance l ≡ pos 0
unfolding new_ledger create_account get_total_balance
Reached-balanced built = omega int_laws
Reached-balanced (opened {l} agent h) = create_account-total agent l ∙ Reached-balanced h
Reached-balanced (transferred {l} r h e) =
    Ensures-ok _ (transfer r l) (transfer-total r l) e ∙ Reached-balanced h
