-- ===== src/Accounts/Ledger/Repeat.antt =====
-- packages/adapters-ledger/src/memory-ledger.ts: requests that are made again.
use agent_poker.Base.{
  ℕ, ◌≡◌, refl, ap, ◌∙◌, subst, List, [], ◌∷◌, ◌++◌, find_by, update_by, none, some, Bool, true,
  not, ◌&&◌, ◌==◌, ok, err, or_throw, or_throw-ok, Ensures, Ensures-then, Ensures-if, Bool-cases,
  Option-cases, ==_refl, >>=-eq-ok, inl, inr,
}
use agent_poker.Base.Laws.{some_inj}
use agent_poker.Base.Int.{ℤ, pos, negsuc, is_positive, ltb_ℤ}
use agent_poker.Accounts.Ledger.{
  ChipAccount, ChipTx, MemoryLedger, Request, TxReason, buyin, pot_transfer, refund, admin_adjust,
  house, lookup, has_account_id, get_account_by_agent_id, debit, credit, repeat_transfer,
  record_transfer, first_transfer, transfer, eq_ℤ, reason_eq, account_not_found, type_error,
  duplicate_ref, is_same_request,
}

eq_ℤ_refl : (n : ℤ) → eq_ℤ n n ≡ true
eq_ℤ_refl (pos n) = ==_refl n
eq_ℤ_refl (negsuc n) = ==_refl n

reason_eq_refl : (reason : TxReason) → reason_eq reason reason ≡ true
reason_eq_refl buyin = refl
reason_eq_refl pot_transfer = refl
reason_eq_refl refund = refl
reason_eq_refl admin_adjust = refl

lookup-append :
    (k : ℕ) (m : List (ℕ × ChipTx)) (v : ChipTx)
    → lookup k m ≡ none
    → lookup k (m ++ (k, v) ∷ []) ≡ some v
lookup-append k [] v e = rw ==_refl
lookup-append k ((j, w) ∷ m) v e = elim (Bool-cases (j == k)) [
  | inl t ↦ cc (rw t at e)
  | inr t ↦ rw t (lookup-append k m v (rw t at e))
]

-- An update that keeps the ids keeps the id of the account that is found.
find-update :
    (f : ChipAccount → ChipAccount) (p : ChipAccount → Bool) (id : ℕ) (accounts : List ChipAccount)
    {a : ChipAccount}
    → ((x : ChipAccount) → (f x).id ≡ x.id)
    → find_by (has_account_id id) accounts ≡ some a
    → (b : ChipAccount) × (find_by (has_account_id id) (update_by p f accounts) ≡ some b)
      × (b.id ≡ a.id)
find-update f p id [] keep e = cc
find-update f p id (x ∷ xs) {a} keep e = elim (Bool-cases (p x)) [
  | inl t ↦ elim (Bool-cases (x.id == id)) [
    | inl u ↦ (f x, rw (t, keep x, u), keep x ∙ ap (λ z. z.id) (some_inj (rw u at e)))
    | inr u ↦ (a, rw (t, keep x, u) (rw u at e), refl)
  ]
  | inr t ↦ elim (Bool-cases (x.id == id)) [
    | inl u ↦ (x, rw (t, u), ap (λ z. z.id) (some_inj (rw u at e)))
    | inr u ↦ rw (t, u) (find-update f p id xs keep (rw u at e))
  ]
]

-- After a transfer is recorded an agent still has the account it had.
account_after :
    (r : Request) (source target : ChipAccount) (agent : ℕ) (l : MemoryLedger) {a : ChipAccount}
    → get_account_by_agent_id agent l ≡ ok a
    → (b : ChipAccount) × (get_account_by_agent_id agent (record_transfer r source target l) ≡ ok b)
      × (b.id ≡ a.id)
unfolding get_account_by_agent_id
account_after r source target agent l {a} e =
    let (id, found, later) =
      >>=-eq-ok (or_throw (lookup agent l.accounts_by_agent_id) account_not_found) _ e in
    let first =
      find-update (debit r.amount) (has_account_id source.id) id l.accounts (λ x. refl)
        (or_throw-ok _ type_error later) in
    let second =
      find-update (credit r.amount) (has_account_id target.id) id _ (λ x. refl) first.1 in
    (second.0, rw (found, second.1), second.2 ∙ first.2)

-- A repeated request is answered with the old transaction when it is the same.
pub repeat_transfer-ok :
    (r : Request) (tx : ChipTx) (l : MemoryLedger) {source target : ChipAccount}
    → get_account_by_agent_id r.from_agent_id l ≡ ok source
    → get_account_by_agent_id r.to_agent_id l ≡ ok target
    → is_same_request r tx source target ≡ true
    → repeat_transfer r tx l ≡ ok (l, tx.id)
unfolding repeat_transfer
repeat_transfer-ok r tx l e f same = rw (e, f, same)

repeat_transfer-again :
    (r : Request) (tx : ChipTx) (l : MemoryLedger)
    → lookup r.ref l.tx_by_ref ≡ some tx
    → Ensures (λ done. transfer r done.0 ≡ ok done) (repeat_transfer r tx l)
unfolding transfer repeat_transfer
repeat_transfer-again r tx l old =
    Ensures-then _ (get_account_by_agent_id r.from_agent_id l) _ (λ source e.
      Ensures-then _ (get_account_by_agent_id r.to_agent_id l) _ (λ target f.
        Ensures-if _ (is_same_request r tx source target) (ok (l, tx.id)) (err duplicate_ref)
          (λ same. rw (transfer, old) (repeat_transfer-ok r tx l e f same)) (λ _. tt)))

record_transfer-again :
    (r : Request) (l : MemoryLedger) {source target : ChipAccount}
    → lookup r.ref l.tx_by_ref ≡ none
    → get_account_by_agent_id r.from_agent_id l ≡ ok source
    → get_account_by_agent_id r.to_agent_id l ≡ ok target
    → transfer r (record_transfer r source target l)
      ≡ ok (record_transfer r source target l, l.next_tx_id)
unfolding transfer
record_transfer-again r l {source} {target} new e f =
    let (a, at_a, same_a) = account_after r source target r.from_agent_id l e in
    let (b, at_b, same_b) = account_after r source target r.to_agent_id l f in
    rw (transfer, lookup-append r.ref l.tx_by_ref _ new)
      (repeat_transfer-ok r _ _ at_a at_b
        (rw (same_a, same_b, ==_refl source.id, ==_refl target.id, eq_ℤ_refl, reason_eq_refl)))

first_transfer-again :
    (r : Request) (l : MemoryLedger)
    → lookup r.ref l.tx_by_ref ≡ none
    → Ensures (λ done. transfer r done.0 ≡ ok done) (first_transfer r l)
unfolding first_transfer
first_transfer-again r l new =
    Ensures-if _ (not (is_positive r.amount)) _ _ (λ _. tt)
      (λ _. Ensures-then _ (get_account_by_agent_id r.from_agent_id l) _ (λ source e.
        Ensures-then _ (get_account_by_agent_id r.to_agent_id l) _ (λ target f.
          Ensures-if _ (not (r.from_agent_id == house) && ltb_ℤ source.balance r.amount) _ _
            (λ _. tt) (λ _. record_transfer-again r l new e f))))

transfer-new :
    (r : Request) (l : MemoryLedger)
    → lookup r.ref l.tx_by_ref ≡ none
    → first_transfer r l ≡ transfer r l
unfolding transfer
transfer-new r l new = rw (transfer, new)

transfer-old :
    (r : Request) (l : MemoryLedger) {tx : ChipTx}
    → lookup r.ref l.tx_by_ref ≡ some tx
    → repeat_transfer r tx l ≡ transfer r l
unfolding transfer
transfer-old r l old = rw (transfer, old)

-- A transfer that returned returns the same transaction when it is asked for again, and the second
-- call changes nothing.
pub transfer-again :
    (r : Request) (l : MemoryLedger) → Ensures (λ done. transfer r done.0 ≡ ok done) (transfer r l)
transfer-again r l = elim (Option-cases (lookup r.ref l.tx_by_ref)) [
  | inl t ↦
      subst (Ensures (λ done. transfer r done.0 ≡ ok done)) (transfer-new r l t)
        (first_transfer-again r l t)
  | inr t ↦
      subst (Ensures (λ done. transfer r done.0 ≡ ok done)) (transfer-old r l t.1)
        (repeat_transfer-again r t.0 l t.1)
]
