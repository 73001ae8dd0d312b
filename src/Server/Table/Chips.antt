-- ===== src/Server/Table/Chips.antt =====
-- apps/game-server/src/table-actor.ts: the chips of a table, from one hand to the next.
use agent_poker.Base.{
  ℕ, ◌+◌, ◌≡◌, refl, sym, ap, ◌∙◌, subst, List, [], ◌∷◌, ◌++◌, any, Bool-cases, inl, inr, ◌⊎◌,
  arith, All, true, false, Option, none, some, ok, Ensures-ok,
}
use agent_poker.Base.Laws.{Distinct, All-map}
use agent_poker.History.HashChain.{Text}
use agent_poker.Poker.Types.{GameState, GameEvent, GameConfig, PlayerAction}
use agent_poker.Poker.Deck.{seeded_rng}
use agent_poker.Poker.Engine.State.{pot_sum}
use agent_poker.Poker.Engine.Invariant.{money, IsPlaying}
use agent_poker.Poker.Engine.Create.{create_initial_state}
use agent_poker.Poker.Engine.Apply.{apply_action}
use agent_poker.Poker.Engine.Hands.{apply_action-money}
use agent_poker.Poker.Engine.Play.{IsDeep, opening-IsPlaying}
use agent_poker.Poker.Engine.Trace.Actions.{Replayable, apply_action-Replayable}
use agent_poker.Server.Table.{
  Variant, TableActor, SeatInfo, add_seat, remove_seat, of_agent, new_table,
}
use agent_poker.Server.Table.Hand.{
  start_hand, process_action, handle_timeout, complete_hand, after_action, close, note_seq, dealt,
  prepared, store_chips,
}
use agent_poker.Server.Table.Cases.{start_hand-cases, process_action-cases, handle_timeout-cases}
use agent_poker.Server.Table.Sound.{add_seat-Seated, Distinct-snoc}
use agent_poker.Server.Table.Stacks.{
  seat_total, agents_of, chips_of, HasSeat, held, player_ids, store_chips-total, store_chips-agents,
  leave-total, leave-agents, leave-chips_of, leave-any, join-total, join-agents, join-chips_of,
  join-any, held-same, no_seat, setups_of, active-Distinct, active-held, active-any,
}

-- The tables that calls lead to, with the chips that the agents bring. An agent joins once, and a
-- hand is started for players with more chips than the ante and both blinds.
pub data Banked : ℕ → TableActor → Type 0 where
  opens :
      {a : TableActor} (id : Text) (seats : Option ℕ) (variant : Option Variant)
      (config : Option GameConfig)
      → a ≡ new_table id seats variant config
      → Banked 0 a
  joins :
      {n m : ℕ} {a b : TableActor} {seat : SeatInfo} (id token buy_in : ℕ)
      → Banked n a
      → any (of_agent id) a.seats ≡ false
      → add_seat id token buy_in a ≡ (b, ok seat)
      → m ≡ n + buy_in
      → Banked m b
  leaves : {n : ℕ} {a b : TableActor} (id : ℕ) → Banked n a → b ≡ remove_seat id a → Banked n b
  starts :
      {n : ℕ} {a b : TableActor}
      → Banked n a
      → All (IsDeep a.config) (setups_of a.seats)
      → b ≡ (start_hand a).0
      → Banked n b
  acts :
      {n : ℕ} {a b : TableActor} (id : ℕ) (action : PlayerAction) (request : Option Text)
      (seq : Option ℕ)
      → Banked n a
      → b ≡ (process_action id action request seq a).0
      → Banked n b
  times_out :
      {n : ℕ} {a b : TableActor} (request : Text)
      → Banked n a
      → b ≡ (handle_timeout request a).0
      → Banked n b
  closes : {n : ℕ} {a b : TableActor} → Banked n a → b ≡ close a → Banked n b

-- The chips in a hand are those at the seats of its players.
pub record InHand (seats : List SeatInfo) (s : GameState) : Type 0 where
  pub playing : IsPlaying s
  pub here : All (HasSeat seats) (player_ids s.players)
  pub same : held seats (player_ids s.players) ≡ money s

abbrev pub InHands : List SeatInfo → Option GameState → Type 0
InHands seats none = Unit
InHands seats (some s) = InHand seats s

-- The invariant: the chips at the seats are those brought, and each agent has one seat.
pub record Balanced (n : ℕ) (a : TableActor) : Type 0 where
  pub agents : Distinct (agents_of a.seats)
  pub chips : seat_total a.seats ≡ n
  pub hand : InHands a.seats a.current_state

-- Seats that hold the same for every agent.
InHands-same :
    (xs ys : List SeatInfo) (current : Option GameState)
    → ((k : ℕ) → HasSeat xs k → (chips_of ys k ≡ chips_of xs k) × HasSeat ys k)
    → InHands xs current
    → InHands ys current
InHands-same xs ys none same h = tt
InHands-same xs ys (some s) same h = record {
  playing = h.playing;
  here = All-map (HasSeat xs) (HasSeat ys) (λ k e. (same k e).1) (player_ids s.players) h.here;
  same =
      held-same xs ys (player_ids s.players) (
        All-map (HasSeat xs) (λ k. chips_of ys k ≡ chips_of xs k) (λ k e. (same k e).0)
          (player_ids s.players) h.here)
      ∙ h.same;
}

remove_seat-Balanced : (n id : ℕ) (a : TableActor) → Balanced n a → Balanced n (remove_seat id a)
unfolding remove_seat
remove_seat-Balanced n id a h = record {
  agents = subst Distinct (sym (leave-agents id a.seats)) h.agents;
  chips = leave-total id a.seats ∙ h.chips;
  hand =
      InHands-same a.seats _ a.current_state
        (λ k e. (leave-chips_of id a.seats k, leave-any id a.seats k ∙ e)) h.hand;
}

joined-Balanced :
    (n : ℕ) (a : TableActor) (seat : SeatInfo)
    → any (of_agent seat.agent_id) a.seats ≡ false
    → Balanced n a
    → Balanced (n + seat.chips) (record a { seats = a.seats ++ seat ∷ [] })
joined-Balanced n a seat new h = record {
  agents = subst Distinct (sym (join-agents seat a.seats)) (
      Distinct-snoc seat.agent_id (agents_of a.seats) h.agents (no_seat seat.agent_id a.seats new));
  chips = omega (arith, join-total seat a.seats, h.chips);
  hand =
      InHands-same a.seats _ a.current_state
        (λ k e. (join-chips_of seat a.seats k e, join-any seat a.seats k e)) h.hand;
}

-- The hand that is dealt.
dealt-Balanced :
    (n hand_id dealer seed : ℕ) (a : TableActor) (r : GameState × List GameEvent)
    → All (IsDeep a.config) (setups_of a.seats)
    → create_initial_state seeded_rng hand_id (setups_of a.seats) dealer seed a.config ≡ ok r
    → Balanced n a
    → Balanced n (dealt r (prepared a))
dealt-Balanced n hand_id dealer seed a r deep created h =
    let (playing, two, brought, same_ids) =
      opening-IsPlaying seeded_rng hand_id (setups_of a.seats) dealer seed a.config
        (active-Distinct a.seats h.agents) deep created in
    record {
      agents = h.agents;
      chips = h.chips;
      hand = record {
        playing = playing;
        here = subst (All (HasSeat a.seats)) (sym same_ids) (active-any a.seats);
        same = ap (held a.seats) same_ids ∙ active-held a.seats h.agents ∙ sym brought;
      };
    }

-- The hand after an accepted action has the same players and the same chips, and at its end they
-- are all in the stacks.
record Continued (seats : List SeatInfo) (s t : GameState) : Type 0 where
  ids : player_ids t.players ≡ player_ids s.players
  chips : money t ≡ money s
  state : (t.is_hand_complete ≡ true) ⊎ IsPlaying t
  cleared : t.is_hand_complete ≡ true → pot_sum t ≡ 0

apply_action-Continued :
    (seats : List SeatInfo) (s : GameState) (id : ℕ) (action : PlayerAction)
    {r : GameState × List GameEvent}
    → IsPlaying s
    → apply_action s id action ≡ ok r
    → Continued seats s r.0
apply_action-Continued seats s id action {r} playing e =
    let again =
      Ensures-ok (Replayable s id action.type) (apply_action s id action)
        (apply_action-Replayable s id action playing) e in
    let (same, state) = apply_action-money s id action playing e in
    record { ids = again.tells.ids; chips = same; state = state; cleared = again.tells.cleared }

stored-total :
    (seats : List SeatInfo) (s t : GameState)
    → InHand seats s
    → Continued seats s t
    → t.is_hand_complete ≡ true
    → seat_total (store_chips t.players seats) ≡ seat_total seats
stored-total seats s t h k over =
    let total =
      store_chips-total t.players seats (subst Distinct (sym k.ids) h.playing.sound.ids)
        (subst (All (HasSeat seats)) (sym k.ids) h.here) in
    omega (arith, total, ap (held seats) k.ids, h.same, k.chips, k.cleared over)

-- After an accepted action.
after_action-Balanced :
    (n id : ℕ) (action : PlayerAction) (request : Option Text) (a : TableActor) (s : GameState)
    (r : GameState × List GameEvent)
    → a.current_state ≡ some s
    → apply_action s id action ≡ ok r
    → Balanced n a
    → Balanced n (after_action request r a)
unfolding after_action complete_hand
after_action-Balanced n id action request a s r current accepted h =
    let in_hand = subst (InHands a.seats) current h.hand in
    let k = apply_action-Continued a.seats s id action in_hand.playing accepted in
    elim (Bool-cases r.0.is_hand_complete) [
      | inl over ↦ simp over (record {
        agents = subst Distinct (sym (store_chips-agents r.0.players a.seats)) h.agents;
        chips = stored-total a.seats s r.0 in_hand k over ∙ h.chips;
        hand = tt;
      })
      | inr going ↦ simp going (record {
        agents = h.agents;
        chips = h.chips;
        hand = record {
          playing = elim k.state [ inl over ↦ cc (over, going) | inr playing ↦ playing ];
          here = subst (All (HasSeat a.seats)) (sym k.ids) in_hand.here;
          same = ap (held a.seats) k.ids ∙ in_hand.same ∙ sym k.chips;
        };
      })
    ]

note_seq-Balanced :
    (n id : ℕ) (seq : Option ℕ) (a : TableActor) → Balanced n a → Balanced n (note_seq id seq a)
note_seq-Balanced n id none a h = h
note_seq-Balanced n id (some m) a h = record { agents = h.agents; chips = h.chips; hand = h.hand }

pub note_seq-current :
    (id : ℕ) (seq : Option ℕ) (a : TableActor) → (note_seq id seq a).current_state ≡ a.current_state
note_seq-current id none a = refl
note_seq-current id (some m) a = refl

-- At a table where each agent joins once and every hand is started for players with more chips
-- than the ante and both blinds, after any calls, accepted or refused, each agent has one seat,
-- the chips at the seats add up to the buy-ins, and a hand that is going on satisfies the engine's
-- invariant, its players have seats, and its chips are those at the seats of its players.
pub Banked-Balanced : {n : ℕ} {a : TableActor} → Banked n a → Balanced n a
Banked-Balanced (opens {a = a} id seats variant config e) =
    subst (Balanced 0) (sym e) (record { agents = tt; chips = refl; hand = tt })
Banked-Balanced
      (joins {n = n} {m = m} {a = a} {b = b} {seat = seat} id token buy_in before new e total) =
    let made = add_seat-Seated id token buy_in a e in
    let joined =
      joined-Balanced n a seat
        (ap (λ (x : SeatInfo). any (of_agent x.agent_id) a.seats) made.is_new_seat ∙ new)
        (Banked-Balanced before) in
    subst (λ k. Balanced k b) (ap (λ (x : SeatInfo). n + x.chips) made.is_new_seat ∙ sym total)
      (subst (Balanced (n + seat.chips)) (sym made.table) joined)
Banked-Balanced (leaves {n = n} {a = a} id before e) =
    subst (Balanced n) (sym e) (remove_seat-Balanced n id a (Banked-Balanced before))
Banked-Balanced (starts {n = n} {a = a} before deep e) =
    let h = Banked-Balanced before in
    subst (Balanced n) (sym e) (
      start_hand-cases (Balanced n) a h
        (record { agents = h.agents; chips = h.chips; hand = h.hand })
        λ r enough created. dealt-Balanced n _ _ _ a r deep created h)
Banked-Balanced (acts {n = n} {a = a} id action request seq before e) =
    let noted = note_seq-Balanced n id seq a (Banked-Balanced before) in
    subst (Balanced n) (sym e) (
      process_action-cases (Balanced n) id action request seq a (Banked-Balanced before) noted
        λ s r current accepted.
          after_action-Balanced n id action request (note_seq id seq a) s r
            (note_seq-current id seq a ∙ current) accepted noted)
Banked-Balanced (times_out {n = n} {a = a} request before e) =
    let h = Banked-Balanced before in
    subst (Balanced n) (sym e) (
      handle_timeout-cases (Balanced n) request a h λ id action s r current accepted.
        after_action-Balanced n id action (some request) a s r current accepted h)
Banked-Balanced (closes {n = n} before e) =
    let h = Banked-Balanced before in
    subst (Balanced n) (sym e) (record { agents = h.agents; chips = h.chips; hand = h.hand })
