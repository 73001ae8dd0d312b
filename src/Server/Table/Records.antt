-- ===== src/Server/Table/Records.antt =====
-- apps/game-server/src/table-actor.ts: the hands that a table records, for the replay.
use agent_poker.Base.Append.{append_assoc, append_nil, All-append}
use agent_poker.Base.{
  ℕ, ◌+◌, ◌-◌, ◌*◌, ◌%◌, ◌<◌, ◌≡◌, refl, sym, ap, ◌∙◌, subst, List, [], ◌∷◌, ◌++◌, map, Bool-cases,
  inl, inr, arith, All, true, false, Option, none, some, ok,
}
use agent_poker.Base.Laws.{Distinct}
use agent_poker.History.HashChain.{Text}
use agent_poker.History.Replay.{replay_hand, compared, with_sorted}
use agent_poker.History.Replay.Actions.{Played}
use agent_poker.History.Replay.RoundTrip.{replay_hand-Played}
use agent_poker.Poker.Types.{
  GameState, GameEvent, GameConfig, PlayerSetup, PlayerAction, Payload, HandResult,
}
use agent_poker.Poker.Deck.{seeded_rng, rng_range}
use agent_poker.Poker.Engine.Create.{create_initial_state}
use agent_poker.Poker.Engine.Apply.{apply_action}
use agent_poker.Poker.Engine.Play.{IsDeep}
use agent_poker.Poker.Engine.Trace.{outcome_of}
use agent_poker.Poker.Engine.Trace.Amounts.{is_pot_limit}
use agent_poker.Server.Table.{TableActor, HandRecord, remove_seat, dealer_of}
use agent_poker.Server.Table.Hand.{
  complete_hand, after_action, note_seq, dealt, prepared, hand_record, hand_player, hash_from,
  hash_seed, seed_of, seed_text,
}
use agent_poker.Server.Table.Cases.{start_hand-cases, process_action-cases, handle_timeout-cases}
use agent_poker.Server.Table.Sound.{add_seat-Seated}
use agent_poker.Server.Table.Stacks.{setups_of, active-Distinct}
use agent_poker.Server.Table.Chips.{
  Banked, Banked-Balanced, note_seq-current, opens, joins, leaves, starts, acts, times_out, closes,
}

Played-snoc :
    {s t u : GameState} {events more : List GameEvent} (id : ℕ) (action : PlayerAction)
    → Played s t events
    → apply_action t id action ≡ ok (u, more)
    → Played s u (events ++ more)
Played-snoc {s} {t} {u} {more = more} id action Played.done e =
    subst (Played s u) (append_nil more) (Played.acts id action e Played.done)
Played-snoc {s} {t} {u} {more = more} id action
      (Played.acts {events = first} {more = later} i a f rest) e =
    subst (Played s u) (sym (append_assoc first later more))
      (Played.acts i a f (Played-snoc id action rest e))

-- The hash is a word.
hash_from-lt : (h : ℕ) (input : Text) → h < rng_range → hash_from h input < rng_range
hash_from-lt h [] less = less
hash_from-lt h (c ∷ cs) less =
    hash_from-lt ((h * 32 + (rng_range - h) + c) % rng_range) cs (omega arith)

seed_of-lt : (a : TableActor) → seed_of a < rng_range
unfolding hash_seed
seed_of-lt a = hash_from-lt 0 (seed_text a) (omega arith)

-- A hand that has been opened from a seed and played to a state, with its events.
record Underway (config : GameConfig) (s : GameState) (events : List GameEvent) : Type 0 where
  hand_id : ℕ
  setups : List PlayerSetup
  dealer : ℕ
  seed : ℕ
  first : GameState
  initial : List GameEvent
  later : List GameEvent
  ids : Distinct (map (λ p. p.id) setups)
  deep : All (IsDeep config) setups
  created :
      create_initial_state seeded_rng hand_id setups dealer (seed % rng_range) config
      ≡ ok (first, initial)
  played : Played first s later
  told : events ≡ initial ++ later

abbrev UnderwayIn : GameConfig → Option GameState → List GameEvent → Type 0
UnderwayIn config none events = Unit
UnderwayIn config (some s) events = Underway config s events

module _ (json : Payload → Text) where
  -- The events of a record replay without an error, to the players that the record shows.
  abbrev pub IsReplayed : HandRecord → Type 0
  IsReplayed h =
      (seed : ℕ) × (u : GameState) × (replay_hand json h.events seed
        ≡ ok (record { final_state = some u; valid = true; errors = [] }))
      × (map hand_player u.players ≡ h.players)

  record Recorded (a : TableActor) : Type 0 where
    hand : UnderwayIn a.config a.current_state a.hand_events
    history : is_pot_limit a.config.betting_mode ≡ false → All IsReplayed a.hand_history

  compared-players : (o : Option HandResult) (s : GameState) → (compared o s).players ≡ s.players
  compared-players none s = refl
  compared-players (some r) s = elim (Bool-cases s.is_hand_complete) [
    | inl over ↦ simp over (sorted s.result_summary)
    | inr going ↦ simp going refl
  ]
    where
      sorted : (o : Option HandResult) → (with_sorted o s).players ≡ s.players
      sorted none = refl
      sorted (some r) = refl

  Underway-IsReplayed :
      (config : GameConfig) (s : GameState) (events : List GameEvent)
      → is_pot_limit config.betting_mode ≡ false
      → Underway config s events
      → IsReplayed (hand_record s events)
  Underway-IsReplayed config s events mode h = (
    h.seed,
    compared (outcome_of s) s,
    subst
        (λ l.
          replay_hand json l h.seed
          ≡ ok (record {
            final_state = some (compared (outcome_of s) s);
            valid = true;
            errors = [];
          }))
        (sym h.told)
        (replay_hand-Played json h.hand_id h.setups h.dealer h.seed config h.ids h.deep mode
          h.created h.played),
    ap (map hand_player) (compared-players (outcome_of s) s),
  )

  Underway-acted :
      (config : GameConfig) (s : GameState) (events : List GameEvent) (id : ℕ)
      (action : PlayerAction) (r : GameState × List GameEvent)
      → apply_action s id action ≡ ok r
      → Underway config s events
      → Underway config r.0 (events ++ r.1)
  Underway-acted config s events id action r e h = record {
    hand_id = h.hand_id;
    setups = h.setups;
    dealer = h.dealer;
    seed = h.seed;
    first = h.first;
    initial = h.initial;
    later = h.later ++ r.1;
    ids = h.ids;
    deep = h.deep;
    created = h.created;
    played = Played-snoc id action h.played e;
    told = ap (λ l. l ++ r.1) h.told ∙ append_assoc h.initial h.later r.1;
  }

  after_action-Recorded :
      (id : ℕ) (action : PlayerAction) (request : Option Text) (a : TableActor) (s : GameState)
      (r : GameState × List GameEvent)
      → a.current_state ≡ some s
      → apply_action s id action ≡ ok r
      → Recorded a
      → Recorded (after_action request r a)
  unfolding after_action complete_hand
  after_action-Recorded id action request a s r current e h =
      let before = subst (λ o. UnderwayIn a.config o a.hand_events) current h.hand in
      let now = Underway-acted a.config s a.hand_events id action r e before in
      elim (Bool-cases r.0.is_hand_complete) [
        | inl over ↦ simp over (record {
          hand = tt;
          history = λ mode.
              All-append IsReplayed a.hand_history (hand_record r.0 (a.hand_events ++ r.1) ∷ [])
                (h.history mode)
                (Underway-IsReplayed a.config r.0 (a.hand_events ++ r.1) mode now, tt);
        })
        | inr going ↦ simp going (record { hand = now; history = h.history })
      ]

  note_seq-Recorded :
      (id : ℕ) (seq : Option ℕ) (a : TableActor) → Recorded a → Recorded (note_seq id seq a)
  note_seq-Recorded id none a h = h
  note_seq-Recorded id (some n) a h = record { hand = h.hand; history = h.history }

  dealt-Recorded :
      (a : TableActor) (r : GameState × List GameEvent)
      → Distinct (map (λ p. p.id) (setups_of a.seats))
      → All (IsDeep a.config) (setups_of a.seats)
      → create_initial_state seeded_rng
          (a.hands_played + 1)
          (setups_of a.seats)
          (dealer_of a)
          (seed_of a)
          a.config
        ≡ ok r
      → Recorded a
      → Recorded (dealt r (prepared a))
  dealt-Recorded a r ids deep created h = record {
    hand = record {
      hand_id = a.hands_played + 1;
      setups = setups_of a.seats;
      dealer = dealer_of a;
      seed = seed_of a;
      first = r.0;
      initial = r.1;
      later = [];
      ids = ids;
      deep = deep;
      created =
          ap
            (λ n.
              create_initial_state seeded_rng (a.hands_played + 1) (setups_of a.seats) (dealer_of a)
                n a.config)
            (word (seed_of a) (seed_of-lt a))
          ∙ created;
      played = Played.done;
      told = sym (append_nil r.1);
    };
    history = h.history;
  }
    where
      word : (n : ℕ) → n < rng_range → n % rng_range ≡ n
      word n less = omega arith

  Banked-Recorded : {n : ℕ} {a : TableActor} → Banked n a → Recorded a
  unfolding remove_seat
  Banked-Recorded (opens id seats variant config e) =
      subst Recorded (sym e) (record { hand = tt; history = λ _. tt })
  Banked-Recorded (joins {a = a} {b = b} id token buy_in before new e total) =
      let made = add_seat-Seated id token buy_in a e in
      let h = Banked-Recorded before in
      subst Recorded (sym made.table) (record { hand = h.hand; history = h.history })
  Banked-Recorded (leaves id before e) =
      let h = Banked-Recorded before in
      subst Recorded (sym e) (record { hand = h.hand; history = h.history })
  Banked-Recorded (starts {a = a} before deep e) =
      let h = Banked-Recorded before in
      let balanced = Banked-Balanced before in
      subst Recorded (sym e) (
        start_hand-cases Recorded a h (record { hand = h.hand; history = h.history })
          λ r enough created.
            dealt-Recorded a r (active-Distinct a.seats balanced.agents) deep created h)
  Banked-Recorded (acts {a = a} id action request seq before e) =
      let h = Banked-Recorded before in
      let noted = note_seq-Recorded id seq a h in
      subst Recorded (sym e) (
        process_action-cases Recorded id action request seq a h noted λ s r current accepted.
          after_action-Recorded id action request (note_seq id seq a) s r
            (note_seq-current id seq a ∙ current) accepted noted)
  Banked-Recorded (times_out {a = a} request before e) =
      let h = Banked-Recorded before in
      subst Recorded (sym e) (
        handle_timeout-cases Recorded request a h λ id action s r current accepted.
          after_action-Recorded id action (some request) a s r current accepted h)
  Banked-Recorded (closes before e) =
      let h = Banked-Recorded before in
      subst Recorded (sym e) (record { hand = h.hand; history = h.history })

  -- At a table for limit or no limit where each agent joins once and every hand is started for
  -- players with more chips than the ante and both blinds, after any calls, accepted or refused,
  -- each record of the table's history has events that some seed replays with no error to a state
  -- whose players have the ids, chips and hole cards of the record.
  pub Banked-IsReplayed :
      {n : ℕ} {a : TableActor}
      → is_pot_limit a.config.betting_mode ≡ false
      → Banked n a
      → All IsReplayed a.hand_history
  Banked-IsReplayed mode h = (Banked-Recorded h).history mode
