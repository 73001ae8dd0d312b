-- ===== src/Accounts/Ledger/Solvent.antt =====
-- packages/adapters-ledger/src/memory-ledger.ts: debts.
use agent_poker.Base.{
  ℕ, ◌≤◌, ◌≡◌, refl, sym, ap, ◌∙◌, subst, List, [], ◌∷◌, ◌++◌, find_by, All, some, true, false, not,
  ◌&&◌, ◌==◌, ==_iff, ok, or_throw, or_throw-ok, Ensures, Ensures-then, Ensures-if, Ensures-ok,
  Ensures-mono, arith, Bool-cases, Option-cases, inl, inr, ◌⊎◌, >>=-eq-ok,
}
use agent_poker.Base.Laws.{find_by-All, All-update_by, All-update_found, some_inj}
use agent_poker.Base.Int.{ℤ, ◌+ℤ◌, ◌-ℤ◌, is_positive, ltb_ℤ, neg_part}
use agent_poker.Accounts.Ledger.{
  ChipAccount, MemoryLedger, Request, house, lookup, has_account_id, create_account, new_ledger,
  get_account_by_agent_id, debit, credit, repeat_transfer, record_transfer, first_transfer,
  transfer, account_not_found, type_error,
}
use agent_poker.Accounts.Ledger.Balance.{repeat_transfer-same, Reached, built, opened, transferred}

-- The house has the first account.
abbrev house_id : ℕ
house_id = 1

-- An account other than the house's holds no debt.
abbrev pub HasNoDebt : ChipAccount → Type 0
HasNoDebt a = (a.id == house_id) ≡ false → neg_part a.balance ≡ 0

record IsSolvent (l : MemoryLedger) : Type 0 where
  no_debt : All HasNoDebt l.accounts
  house_first : lookup house l.accounts_by_agent_id ≡ some house_id
  others :
      (agent : ℕ) {id : ℕ}
      → lookup agent l.accounts_by_agent_id ≡ some id
      → (agent == house) ≡ false
      → (id == house_id) ≡ false
  fresh : 2 ≤ l.next_account_id

lookup-append_other :
    (agent other id : ℕ) (m : List (ℕ × ℕ))
    → (other == agent) ≡ false
    → lookup agent (m ++ (other, id) ∷ []) ≡ lookup agent m
lookup-append_other agent other id [] h = rw h
lookup-append_other agent other id ((k, v) ∷ m) h = elim (Bool-cases (k == agent)) [
  | inl t ↦ rw t
  | inr t ↦ rw t (lookup-append_other agent other id m h)
]

lookup-append_found :
    (agent other id : ℕ) (m : List (ℕ × ℕ)) {v : ℕ}
    → lookup agent (m ++ (other, id) ∷ []) ≡ some v
    → (lookup agent m ≡ some v) ⊎ (v ≡ id)
lookup-append_found agent other id [] e = elim (Bool-cases (other == agent)) [
  | inl t ↦ inr (sym (some_inj (rw t at e)))
  | inr t ↦ cc (rw t at e)
]
lookup-append_found agent other id ((k, v) ∷ m) e = elim (Bool-cases (k == agent)) [
  | inl t ↦ rw t (inl (rw t at e))
  | inr t ↦ rw t (lookup-append_found agent other id m (rw t at e))
]

All-append_one :
    (accounts : List ChipAccount) (a : ChipAccount)
    → All HasNoDebt accounts
    → HasNoDebt a
    → All HasNoDebt (accounts ++ a ∷ [])
All-append_one [] a h k = (k, tt)
All-append_one (x ∷ xs) a h k = (h.0, All-append_one xs a h.1 k)

new_ledger-IsSolvent : IsSolvent new_ledger
unfolding new_ledger create_account
new_ledger-IsSolvent = record {
  no_debt = (λ h. refl, tt);
  house_first = refl;
  others = λ agent e h. ground arith;
  fresh = omega arith;
}

lookup-append_kept :
    (agent other id : ℕ) (m : List (ℕ × ℕ)) {v : ℕ}
    → lookup agent m ≡ some v
    → lookup agent (m ++ (other, id) ∷ []) ≡ some v
lookup-append_kept agent other id [] e = cc
lookup-append_kept agent other id ((k, v) ∷ m) e = elim (Bool-cases (k == agent)) [
  | inl t ↦ rw t (rw t at e)
  | inr t ↦ rw t (lookup-append_kept agent other id m (rw t at e))
]

new_others :
    (agent : ℕ) (l : MemoryLedger)
    → IsSolvent l
    → (other : ℕ) {id : ℕ}
    → lookup other (l.accounts_by_agent_id ++ (agent, l.next_account_id) ∷ []) ≡ some id
    → (other == house) ≡ false
    → (id == house_id) ≡ false
new_others agent l s other e h =
    elim (lookup-append_found other agent l.next_account_id l.accounts_by_agent_id e) [
      | inl old ↦ s.others other old h
      | inr new ↦ ground (arith, new, s.fresh)
    ]

create_account-IsSolvent :
    (agent : ℕ) (l : MemoryLedger) → IsSolvent l → IsSolvent (create_account agent l).0
unfolding create_account
create_account-IsSolvent agent l s = elim (Option-cases (lookup agent l.accounts_by_agent_id)) [
  | inl t ↦
      rw (create_account, t)
        (record {
          no_debt = All-append_one l.accounts _ s.no_debt (λ h. refl);
          house_first =
              lookup-append_kept house agent l.next_account_id l.accounts_by_agent_id s.house_first;
          others = λ other e h. new_others agent l s other e h;
          fresh = omega (arith, s.fresh);
        })
  | inr t ↦ rw (create_account, t.1) s
]

All-unit : (accounts : List ChipAccount) → All (λ _. Unit {0}) accounts
All-unit [] = tt
All-unit (x ∷ xs) = (tt, All-unit xs)

-- The account that is found is the first with its id.
found_at :
    (agent : ℕ) (l : MemoryLedger) {a : ChipAccount}
    → get_account_by_agent_id agent l ≡ ok a
    → (lookup agent l.accounts_by_agent_id ≡ some a.id)
      × (find_by (has_account_id a.id) l.accounts ≡ some a)
unfolding get_account_by_agent_id
found_at agent l {a} e =
    let (id, at, later) =
      >>=-eq-ok (or_throw (lookup agent l.accounts_by_agent_id) account_not_found) _ e in
    let found = or_throw-ok _ type_error later in
    let same : a.id ≡ id =
      (==_iff a.id id).0
        (find_by-All (λ _. Unit {0}) (has_account_id id) l.accounts (All-unit l.accounts)
          found).1 in
    (
      or_throw-ok _ account_not_found at ∙ ap some (sym same),
      ap (λ n. find_by (has_account_id n) l.accounts) same ∙ found,
    )

credit_no_debt : (a b : ℤ) → is_positive b ≡ true → neg_part a ≡ 0 → neg_part (a +ℤ b) ≡ 0
unfolding ◌+ℤ◌
credit_no_debt a b h k = ground arith

debit_no_debt :
    (a b : ℤ) → is_positive b ≡ true → ltb_ℤ a b ≡ false → neg_part a ≡ 0 → neg_part (a -ℤ b) ≡ 0
unfolding ◌-ℤ◌
debit_no_debt a b h e k = ground arith

record_transfer-IsSolvent :
    (r : Request) (source target : ChipAccount) (l : MemoryLedger)
    → IsSolvent l
    → is_positive r.amount ≡ true
    → get_account_by_agent_id r.from_agent_id l ≡ ok source
    → (not (r.from_agent_id == house) && ltb_ℤ source.balance r.amount) ≡ false
    → IsSolvent (record_transfer r source target l)
record_transfer-IsSolvent r source target l s positive e enough = record {
  no_debt =
      All-update_by HasNoDebt (credit r.amount) (has_account_id target.id) _
        (λ x _ h k. credit_no_debt x.balance r.amount positive (h k))
        (All-update_found HasNoDebt (debit r.amount) (has_account_id source.id) l.accounts
          (found_at r.from_agent_id l e).1
          (λ h k. debit_no_debt source.balance r.amount positive (covered k) (h k)) s.no_debt);
  house_first = s.house_first;
  others = s.others;
  fresh = s.fresh;
}
  where
    covered : (source.id == house_id) ≡ false → ltb_ℤ source.balance r.amount ≡ false
    covered k = elim (Bool-cases (r.from_agent_id == house)) [
      | inl t ↦
          let is_house : r.from_agent_id ≡ house = (==_iff r.from_agent_id house).0 t in
          let first : source.id ≡ house_id = some_inj (
            sym (found_at r.from_agent_id l e).0
            ∙ ap (λ n. lookup n l.accounts_by_agent_id) is_house
            ∙ s.house_first) in
          ground (arith, first)
      | inr t ↦ rw t at enough
    ]

first_transfer-IsSolvent :
    (r : Request) (l : MemoryLedger)
    → IsSolvent l
    → Ensures (λ done. IsSolvent done.0) (first_transfer r l)
unfolding first_transfer
first_transfer-IsSolvent r l s =
    Ensures-if _ (not (is_positive r.amount)) _ _ (λ _. tt)
      (λ positive. Ensures-then _ (get_account_by_agent_id r.from_agent_id l) _ (λ source e.
        Ensures-then _ (get_account_by_agent_id r.to_agent_id l) _ (λ target f.
          Ensures-if _ (not (r.from_agent_id == house) && ltb_ℤ source.balance r.amount) _ _
            (λ _. tt)
            (λ enough. record_transfer-IsSolvent r source target l s (ground arith) e enough))))

transfer-IsSolvent :
    (r : Request) (l : MemoryLedger)
    → IsSolvent l
    → Ensures (λ done. IsSolvent done.0) (transfer r l)
unfolding transfer
transfer-IsSolvent r l s = elim (Option-cases (lookup r.ref l.tx_by_ref)) [
  | inl t ↦ rw (transfer, t) (first_transfer-IsSolvent r l s)
  | inr t ↦
      rw (transfer, t.1)
        (Ensures-mono _ _ (repeat_transfer r t.0 l) (repeat_transfer-same r t.0 l)
          (λ done same. subst IsSolvent (sym same) s))
]

Reached-IsSolvent : {l : MemoryLedger} → Reached l → IsSolvent l
Reached-IsSolvent built = new_ledger-IsSolvent
Reached-IsSolvent (opened {l} agent h) = create_account-IsSolvent agent l (Reached-IsSolvent h)
Reached-IsSolvent (transferred {l} r h e) =
    Ensures-ok _ (transfer r l) (transfer-IsSolvent r l (Reached-IsSolvent h)) e

-- In every ledger that calls lead to from the constructor's, no account but the house's, the
-- first, holds a debt.
pub Reached-HasNoDebt : {l : MemoryLedger} → Reached l → All HasNoDebt l.accounts
Reached-HasNoDebt h = (Reached-IsSolvent h).no_debt
