-- ===== src/Server/Table/Cases.antt =====
-- apps/game-server/src/table-actor.ts: the ways in which a call for a hand can go.
use agent_poker.Base.{
  leb, length, filter_by, any, ℕ, ◌+◌, ◌≡◌, refl, List, [], ◌∷◌, ◌++◌, map, Bool-cases,
  Option-cases, inl, inr, true, false, Option, none, some, Result-cases, ok, err, find_by, ◌∙◌,
}
use agent_poker.Poker.Types.{GameState, GameEvent, PlayerAction, EngineError}
use agent_poker.History.HashChain.{Text}
use agent_poker.Poker.Deck.{seeded_rng}
use agent_poker.Poker.Engine.State.{at_seat}
use agent_poker.Poker.Engine.Legal.{get_legal_actions}
use agent_poker.Poker.Engine.Create.{create_initial_state}
use agent_poker.Poker.Engine.Apply.{apply_action}
use agent_poker.Server.Table.{
  SeatInfo, new_seat, add_seat, sits, sits_as, Method, replay_detected, engine, TableActor,
  active_seats, setup_of, dealer_of, can_start_hand,
}
use agent_poker.Server.Table.Hand.{
  Processed, start_hand, prepared, dealt, seed_of, process_action, process_in, process_with,
  time_out_with, run_action, after_action, complete_hand, note_seq, is_cached, is_replay,
  handle_timeout, time_out, timeout_action,
}

-- The ways in which a call goes when there is a hand, with its result.
pub process_in-ways :
    (P : Method Processed → Type 0) (s : GameState) (id : ℕ) (action : PlayerAction)
    (request : Option Text) (seq : Option ℕ) (a : TableActor)
    → (is_cached request a.request_ids ≡ true
        → P (a, ok (record { state = s; events = []; already_processed = true })))
    → (is_cached request a.request_ids ≡ false
        → is_replay id seq a ≡ true
        → P (a, err replay_detected))
    → ((e : EngineError)
        → is_cached request a.request_ids ≡ false
        → is_replay id seq a ≡ false
        → apply_action s id action ≡ err e
        → P (note_seq id seq a, err (engine e)))
    → ((r : GameState × List GameEvent)
        → is_cached request a.request_ids ≡ false
        → is_replay id seq a ≡ false
        → apply_action s id action ≡ ok r
        → P (
          after_action request r (note_seq id seq a),
          ok (record { state = r.0; events = r.1; already_processed = false }),
        ))
    → P (process_in s id action request seq a)
unfolding process_in run_action
process_in-ways P s id action request seq a repeated replayed refused went =
    elim (Bool-cases (is_cached request a.request_ids)) [
      | inl cached ↦ rw cached (repeated cached)
      | inr fresh ↦ rw fresh (elim (Bool-cases (is_replay id seq a)) [
        | inl old ↦ rw old (replayed fresh old)
        | inr later ↦ rw later (elim (Result-cases (apply_action s id action)) [
          | inr (e, h) ↦ rw (h, run_action) (refused e fresh later h)
          | inl (r, h) ↦ rw (h, run_action) (went r fresh later h)
        ])
      ])
    ]

-- A property of the tables that a call leads to.
module _ (P : TableActor → Type 0) where
  pub add_seat-cases :
      (id token buy_in : ℕ) (a : TableActor)
      → P a
      → ((after : TableActor) (seat : SeatInfo)
          → add_seat id token buy_in a ≡ (after, ok seat)
          → P after)
      → P (add_seat id token buy_in a).0
  unfolding add_seat
  add_seat-cases id token buy_in a same go =
      elim (Bool-cases (leb a.max_seats (length (filter_by sits a.seats)))) [
        | inl full ↦ rw full same
        | inr room ↦ elim (Bool-cases (any (sits_as id) a.seats)) [
          | inl already ↦ rw (room, already) same
          | inr new ↦
              rw (room, new)
                (go (record a { seats = a.seats ++ new_seat id token buy_in a ∷ [] })
                  (new_seat id token buy_in a) (rw (add_seat, room, new) refl))
        ]
      ]

  pub start_hand-cases :
      (a : TableActor)
      → P a
      → P (prepared a)
      → ((r : GameState × List GameEvent)
          → can_start_hand a ≡ true
          → create_initial_state seeded_rng
              (a.hands_played + 1)
              (map setup_of (active_seats a))
              (dealer_of a)
              (seed_of a)
              a.config
            ≡ ok r
          → P (dealt r (prepared a)))
      → P (start_hand a).0
  unfolding start_hand
  start_hand-cases a same ready go = elim (Bool-cases (can_start_hand a)) [
    | inr few ↦ rw few same
    | inl enough ↦
        rw enough
          (elim (Result-cases (
            create_initial_state seeded_rng (a.hands_played + 1) (map setup_of (active_seats a))
              (dealer_of a) (seed_of a) a.config)) [
                | inr (e, h) ↦ rw h ready
                | inl (r, h) ↦ rw h (go r enough h)
              ])
  ]

  module _ (id : ℕ) (action : PlayerAction) (request : Option Text) (seq : Option ℕ)
      (a : TableActor) (same : P a) (noted : P (note_seq id seq a)) where
    process_in-cases :
        (s : GameState)
        → ((r : GameState × List GameEvent)
            → apply_action s id action ≡ ok r
            → P (after_action request r (note_seq id seq a)))
        → P (process_in s id action request seq a).0
    process_in-cases s go =
        process_in-ways (λ m. P m.0) s id action request seq a (λ _. same) (λ _ _. same)
          (λ e _ _ _. noted) λ r _ _ h. go r h

    process_with-cases :
        (current : Option GameState)
        → ((s : GameState) (r : GameState × List GameEvent)
            → current ≡ some s
            → apply_action s id action ≡ ok r
            → P (after_action request r (note_seq id seq a)))
        → P (process_with current id action request seq a).0
    unfolding process_with
    process_with-cases none go = same
    process_with-cases (some s) go = process_in-cases s λ r h. go s r refl h

    pub process_action-cases :
        ((s : GameState) (r : GameState × List GameEvent)
          → a.current_state ≡ some s
          → apply_action s id action ≡ ok r
          → P (after_action request r (note_seq id seq a)))
        → P (process_action id action request seq a).0
    unfolding process_action
    process_action-cases go = process_with-cases a.current_state go

  module _ (request : Text) (a : TableActor) (same : P a)
      (go : (id : ℕ) (action : PlayerAction) (s : GameState) (r : GameState × List GameEvent)
        → a.current_state ≡ some s
        → apply_action s id action ≡ ok r
        → P (after_action (some request) r a)) where
    time_out-cases : (s : GameState) → P (time_out s request a).0
    unfolding time_out
    time_out-cases s =
        elim (Option-cases (find_by (at_seat s.active_player_seat_index) s.players)) [
          | inl nobody ↦ rw (nobody, time_out) same
          | inr (player, found) ↦
              rw (found, time_out)
                (elim (Result-cases (get_legal_actions s)) [
                  | inr (e, h) ↦ rw h same
                  | inl (legal, h) ↦ rw h (
                      process_action-cases player.id (timeout_action legal) (some request) none a
                        same same (go player.id (timeout_action legal)))
                ])
        ]

    time_out_with-cases : (current : Option GameState) → P (time_out_with current request a).0
    unfolding time_out_with
    time_out_with-cases none = same
    time_out_with-cases (some s) = elim (Bool-cases s.is_hand_complete) [
      | inl over ↦ simp over same
      | inr playing ↦ simp playing (time_out-cases s)
    ]

    pub handle_timeout-cases : P (handle_timeout request a).0
    unfolding handle_timeout
    handle_timeout-cases = time_out_with-cases a.current_state

note_seq-table_id :
    (id : ℕ) (seq : Option ℕ) (a : TableActor) → (note_seq id seq a).table_id ≡ a.table_id
note_seq-table_id id none a = refl
note_seq-table_id id (some n) a = refl

after_action-table_id :
    (request : Option Text) (r : GameState × List GameEvent) (a : TableActor)
    → (after_action request r a).table_id ≡ a.table_id
unfolding after_action complete_hand
after_action-table_id request r a = elim (Bool-cases (r.0.is_hand_complete)) [
  | inl over ↦ rw over refl
  | inr on ↦ rw on refl
]

pub process_action-table_id :
    (id : ℕ) (action : PlayerAction) (request : Option Text) (seq : Option ℕ) (a : TableActor)
    → (process_action id action request seq a).0.table_id ≡ a.table_id
process_action-table_id id action request seq a =
    process_action-cases (λ t. t.table_id ≡ a.table_id) id action request seq a refl
      (note_seq-table_id id seq a)
      λ s r _ _. after_action-table_id request r (note_seq id seq a) ∙ note_seq-table_id id seq a
