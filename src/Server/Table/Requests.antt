-- ===== src/Server/Table/Requests.antt =====
-- apps/game-server/src/table-actor.ts: repeated requests and replayed messages. The cache of request
-- ids is the table's, not a seat's as docs/PROTOCOL_WS.md has it.
use agent_poker.Base.{
  ℕ, ◌≤◌, ◌≡◌, refl, sym, ap, ◌∙◌, subst, List, [], ◌∷◌, any, arith, true, false, Bool, ◌⊎◌, ok_inj,
  err_inj, ◌==◌, Option, none, some, ok, err, Bool-cases, inl, inr, ==_refl,
}
use agent_poker.Poker.Types.{GameState, GameEvent, PlayerAction, EngineError}
use agent_poker.History.HashChain.{Text, text_eq}
use agent_poker.History.HashChain.Integrity.{text_eq_refl}
use agent_poker.Server.Table.{TableActor, TableError, replay_detected, engine, Method}
use agent_poker.Server.Table.Cases.{process_in-ways}
use agent_poker.Server.Table.Hand.{
  Processed, process_action, process_with, process_in, after_action, complete_hand, is_cached,
  cache, note_seq, last_seq, set_seq, not_after,
}

any_first : (r : Text) (ids : List Text) → any (text_eq r) (r ∷ ids) ≡ true
any_first r ids = rw (text_eq_refl r) refl

-- Whether a text names a request.
abbrev pub is_named : Option Text → Bool
is_named none = false
is_named (some []) = false
is_named (some (c ∷ cs)) = true

cache-is_cached :
    (request : Option Text) (ids : List Text)
    → is_named request ≡ true
    → is_cached request (cache request ids) ≡ true
cache-is_cached none ids h = cc
cache-is_cached (some []) ids h = cc
cache-is_cached (some (c ∷ cs)) ids h = any_first (c ∷ cs) ids

-- A call that returns, in a hand that goes on, has left its request in the cache.
abbrev Cached : Option Text → Method Processed → Type 0
Cached request m =
    (p : Processed) (s : GameState)
    → m.1 ≡ ok p
    → m.0.current_state ≡ some s
    → is_cached request m.0.request_ids ≡ true

note_seq-requests :
    (id : ℕ) (seq : Option ℕ) (a : TableActor) → (note_seq id seq a).request_ids ≡ a.request_ids
note_seq-requests id none a = refl
note_seq-requests id (some n) a = refl

after_action-Cached :
    (request : Option Text) (r : GameState × List GameEvent) (a : TableActor) (s : GameState)
    → is_named request ≡ true
    → (after_action request r a).current_state ≡ some s
    → is_cached request (after_action request r a).request_ids ≡ true
unfolding after_action complete_hand
after_action-Cached request r a s named = elim (Bool-cases r.0.is_hand_complete) [
  | inl over ↦ simp over (λ e. cc)
  | inr going ↦ simp going (λ e. cache-is_cached request a.request_ids named)
]

process_with-Cached :
    (current : Option GameState) (id : ℕ) (action : PlayerAction) (request : Option Text)
    (seq : Option ℕ) (a : TableActor)
    → is_named request ≡ true
    → Cached request (process_with current id action request seq a)
unfolding process_with
process_with-Cached none id action request seq a named = λ p s e. cc
process_with-Cached (some s) id action request seq a named =
    process_in-ways (Cached request) s id action request seq a (λ cached p t e f. cached)
      (λ _ _ p t e. cc) (λ x _ _ _ p t e. cc)
      λ r _ _ _ p t e f. after_action-Cached request r (note_seq id seq a) t named f

-- If a call with a request id that is not empty returns and a hand is going on after it, then a
-- next call with that id, whoever makes it, returns the current state and no events as processed
-- already, and leaves the table as it is.
pub process_action-again :
    (request : Text) (first second : ℕ) (action other : PlayerAction) (seq later : Option ℕ)
    (a : TableActor) {b : TableActor} {p : Processed} {s : GameState}
    → is_named (some request) ≡ true
    → process_action first action (some request) seq a ≡ (b, ok p)
    → b.current_state ≡ some s
    → process_action second other (some request) later b
      ≡ (b, ok (record { state = s; events = []; already_processed = true }))
unfolding process_action process_with process_in
process_action-again request first second action other seq later a {b} {p} {s} named done going =
    let cached : is_cached (some request) b.request_ids ≡ true =
      subst (Cached (some request)) done
        (process_with-Cached a.current_state first action (some request) seq a named) p s refl
        going in
    ap (λ o. process_with o second other (some request) later b) going ∙ rw cached refl

last_seq-set_seq : (id n : ℕ) (seqs : List (ℕ × ℕ)) → last_seq id (set_seq id n seqs) ≡ some n
last_seq-set_seq id n [] = rw ==_refl refl
last_seq-set_seq id n ((key, old) ∷ seqs) = elim (Bool-cases (key == id)) [
  | inl here ↦ rw here (rw here refl)
  | inr later ↦ rw later (rw later (last_seq-set_seq id n seqs))
]

after_action-seqs :
    (request : Option Text) (r : GameState × List GameEvent) (a : TableActor)
    → (after_action request r a).seq_per_seat ≡ a.seq_per_seat
unfolding after_action complete_hand
after_action-seqs request r a = elim (Bool-cases r.0.is_hand_complete) [
  | inl over ↦ simp over
  | inr going ↦ simp going
]

-- A call that reaches the engine, with a number, had a later one than the last and has noted it.
abbrev Noted : ℕ → ℕ → TableActor → Method Processed → Type 0
Noted id n a m =
    (p : Processed)
    → m.1 ≡ ok p
    → p.already_processed ≡ false
    → (not_after n (last_seq id a.seq_per_seat) ≡ false) × (last_seq id m.0.seq_per_seat ≡ some n)

process_with-Noted :
    (current : Option GameState) (id : ℕ) (action : PlayerAction) (request : Option Text) (n : ℕ)
    (a : TableActor)
    → Noted id n a (process_with current id action request (some n) a)
unfolding process_with
process_with-Noted none id action request n a = λ p e. cc
process_with-Noted (some s) id action request n a =
    process_in-ways (Noted id n a) s id action request (some n) a
      (λ cached p e f. cc (ap (λ q. q.already_processed) (ok_inj e))) (λ _ _ p e. cc)
      (λ x _ _ _ p e. cc)
      λ r _ later _ p e f. (
        later,
        ap (last_seq id) (after_action-seqs request r (note_seq id (some n) a))
            ∙ last_seq-set_seq id n a.seq_per_seat,
      )

-- If a call with a sequence number returns, was not answered from the cache, and a hand is going
-- on after it, then the number was above the agent's last one, and a further call of that agent
-- with the same or a lower number, whose request id is not cached, is refused as a replay and
-- leaves the table as it is.
pub process_action-replayed :
    (id n m : ℕ) (action other : PlayerAction) (request later : Option Text) (a : TableActor)
    {b : TableActor} {p : Processed} {s : GameState}
    → process_action id action request (some n) a ≡ (b, ok p)
    → p.already_processed ≡ false
    → b.current_state ≡ some s
    → is_cached later b.request_ids ≡ false
    → m ≤ n
    → (not_after n (last_seq id a.seq_per_seat) ≡ false)
      × (process_action id other later (some m) b ≡ (b, err replay_detected))
unfolding process_action process_with process_in
process_action-replayed id n m action other request later a {b} {p} {s} done went going fresh old =
    let (after, noted) =
      subst (Noted id n a) done (process_with-Noted a.current_state id action request n a) p refl
        went in
    (
      after,
      ap (λ o. process_with o id other later (some m) b) going ∙ rw (fresh, noted) (ground arith),
    )

-- A call that throws.
abbrev Thrown : ℕ → Option ℕ → TableActor → Method Processed → Type 0
Thrown id seq a m =
    (e : TableError)
    → m.1 ≡ err e
    → (m.0 ≡ a) ⊎ ((x : EngineError) × (e ≡ engine x) × (m.0 ≡ note_seq id seq a))

process_with-Thrown :
    (current : Option GameState) (id : ℕ) (action : PlayerAction) (request : Option Text)
    (seq : Option ℕ) (a : TableActor)
    → Thrown id seq a (process_with current id action request seq a)
unfolding process_with
process_with-Thrown none id action request seq a = λ e f. inl refl
process_with-Thrown (some s) id action request seq a =
    process_in-ways (Thrown id seq a) s id action request seq a (λ cached e f. inl refl)
      (λ _ _ e f. inl refl) (λ x _ _ _ e f. inr (x, sym (err_inj f), refl)) λ r _ _ _ e f. cc

-- A call that throws leaves the table as it is, or the error is the engine's and the table differs
-- only in having noted the sequence number.
pub process_action-throws :
    (id : ℕ) (action : PlayerAction) (request : Option Text) (seq : Option ℕ) (a : TableActor)
    {b : TableActor} {e : TableError}
    → process_action id action request seq a ≡ (b, err e)
    → (b ≡ a) ⊎ ((x : EngineError) × (e ≡ engine x) × (b ≡ note_seq id seq a))
unfolding process_action
process_action-throws id action request seq a {b} {e} done =
    subst (Thrown id seq a) done (process_with-Thrown a.current_state id action request seq a) e
      refl
