-- ===== src/History/Replay/RoundTrip.antt =====
-- packages/hand-history/src/replay.ts: the replay of hands that the engine has played.
use agent_poker.Base.Append.{map-append, take-append}
use agent_poker.Base.{
  Bool-cases, ℕ, ◌%◌, ◌≤◌, ◌≡◌, refl, sym, ap, ◌∙◌, subst, true, false, List, [], ◌∷◌, ◌++◌, map,
  length, All, none, some, ok, ◌==◌, Ensures-ok, arith, inl, inr, sort, ==_refl,
}
use agent_poker.Base.Laws.{Distinct}
use agent_poker.Poker.Types.{
  GameState, GameEvent, GameConfig, PlayerSetup, Payload, HandResult, hand_start,
}
use agent_poker.Poker.Deck.{seeded_rng, rng_range}
use agent_poker.Poker.Engine.Create.{create_initial_state}
use agent_poker.Poker.Engine.Play.{IsDeep, opening-IsPlaying}
use agent_poker.Poker.Engine.Trace.{payloads, end_of, outcome_of, end_of-append}
use agent_poker.Poker.Engine.Trace.Amounts.{is_pot_limit}
use agent_poker.History.HashChain.{Text, type_of}
use agent_poker.History.HashChain.Integrity.{text_eq_refl, type_eq_refl}
use agent_poker.History.Replay.{
  actions_of, pairs_eq, norm_dist, verify_final_state, check_end, compared, same_event,
  verify_event_sequence, replay_rest, replay_started, replay_hand,
}
use agent_poker.History.Replay.Actions.{
  Played, Replays, Played-Replays, actions_of-quiet, actions_of-append,
}
use agent_poker.History.Replay.Opening.{OpensTurn, create_initial_state-Opens}

pairs_eq_refl : (xs : List (ℕ × ℕ)) → pairs_eq xs xs ≡ true
pairs_eq_refl [] = refl
pairs_eq_refl ((a, b) ∷ xs) = simp (==_refl, pairs_eq_refl xs)

verify_final_state_refl : (r : HandResult) → verify_final_state r r ≡ true
unfolding verify_final_state
verify_final_state_refl r =
    simp (text_eq_refl (sort r.winners), pairs_eq_refl (norm_dist r.pot_distribution))

check_end-outcome :
    (u : GameState)
    → (u.is_hand_complete ≡ true → (result : HandResult) × (u.result_summary ≡ some result))
    → check_end (outcome_of u) u ≡ []
unfolding check_end
check_end-outcome u announced = elim (Bool-cases u.is_hand_complete) [
  | inl over ↦ let (result, e) = announced over in simp (over, e, verify_final_state_refl result)
  | inr playing ↦ simp playing
]

verify_event_sequence_refl :
    (json : Payload → Text) (events : List GameEvent)
    → verify_event_sequence json events events ≡ true
unfolding verify_event_sequence same_event
verify_event_sequence_refl json [] = refl
verify_event_sequence_refl json (e ∷ es) = simp (
  type_eq_refl (type_of e.payload),
  ==_refl,
  text_eq_refl (json e.payload),
  verify_event_sequence_refl json es,
)

module _ (json : Payload → Text) {s u : GameState} (initial events : List GameEvent) where
  replay_rest-Replays :
      actions_of initial ≡ []
      → end_of (payloads initial) ≡ none
      → Replays s u events
      → replay_rest json (s, initial) (initial ++ events)
        ≡ record { final_state = some (compared (outcome_of u) u); valid = true; errors = [] }
  unfolding replay_rest
  replay_rest-Replays still open_end played = simp (
    take-append initial events,
    verify_event_sequence_refl json initial,
    actions_of-append initial events,
    still,
    played.reached,
    map-append (λ (e : GameEvent). e.payload) initial events,
    end_of-append (payloads initial) (payloads events) open_end,
    played.ended,
    check_end-outcome u played.announced,
  )

module _ (json : Payload → Text) (hand_id : ℕ) (setups : List PlayerSetup) (dealer seed : ℕ)
    (config : GameConfig) where
  -- The first event leads to the same opening.
  replay_hand-started :
      {s : GameState} (rest events : List GameEvent)
      → let first : GameEvent = record {
        seq = 0;
        hand_id = hand_id;
        payload = hand_start setups dealer config;
      } in
        2 ≤ length setups
        → create_initial_state seeded_rng hand_id setups dealer (seed % rng_range) config
          ≡ ok (s, first ∷ rest)
        → replay_hand json ((first ∷ rest) ++ events) seed
          ≡ ok (replay_rest json (s, first ∷ rest) ((first ∷ rest) ++ events))
  unfolding replay_hand replay_started
  replay_hand-started rest events two created =
      let enough : (length setups == 0) ≡ false = ground arith in rw (enough, created) refl

  -- If a hand in limit or no limit is opened from a seed for players with distinct ids, each with
  -- more chips than the ante and both blinds, and actions are accepted one after another, then the
  -- replay of all its events from that seed returns no error and is valid, and its final state is
  -- the one that was reached, its announced winners sorted if the hand is over.
  pub replay_hand-Played :
      {s u : GameState} {initial events : List GameEvent}
      → Distinct (map (λ p. p.id) setups)
      → All (IsDeep config) setups
      → is_pot_limit config.betting_mode ≡ false
      → create_initial_state seeded_rng hand_id setups dealer (seed % rng_range) config
        ≡ ok (s, initial)
      → Played s u events
      → replay_hand json (initial ++ events) seed
        ≡ ok (record { final_state = some (compared (outcome_of u) u); valid = true; errors = [] })
  replay_hand-Played {s} {u} {initial} {events} ids deep mode created played =
      let (opens, configured) =
        Ensures-ok (OpensTurn hand_id setups dealer config) _
          (create_initial_state-Opens seeded_rng hand_id setups dealer (seed % rng_range) config)
          created in
      let (playing, two, brought, same_ids) =
        opening-IsPlaying seeded_rng hand_id setups dealer (seed % rng_range) config ids deep
          created in
      let replays =
        Played-Replays playing (ap (λ c. is_pot_limit c.betting_mode) configured ∙ mode) played in
      let open_list = opens.started in
      subst
        (λ l.
          replay_hand json (l ++ events) seed
          ≡ ok (record {
            final_state = some (compared (outcome_of u) u);
            valid = true;
            errors = [];
          }))
        (sym open_list)
        (replay_hand-started opens.rest events two (created ∙ ap (λ l. ok (s, l)) open_list)
          ∙ ap ok (
              replay_rest-Replays json _ events (actions_of-quiet opens.rest opens.quiet)
                opens.ended replays))
