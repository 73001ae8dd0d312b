-- ===== src/Poker/Engine/Play.antt =====
-- packages/poker-engine/src/engine.ts: hands from `createInitialState` on.
use agent_poker.Base.{
  ℕ, ◌+◌, ◌≤◌, ◌<◌, ◌≡◌, refl, ◌∙◌, true, false, List, [], ◌∷◌, map, length, All, ok, err, ◌||◌,
  ltb, Ensures, Ensures-if, Ensures-then, Ensures-mono, Ensures-ok, arith, ◌⊎◌, find_by, or_throw,
}
use agent_poker.Base.Laws.{Distinct, All-map}
use agent_poker.Poker.Types.{
  Card, GameState, GameConfig, PlayerState, PlayerSetup, GameEvent, type_error, bad_player_count,
}
use agent_poker.Poker.Positions.{Blinds, get_blind_seats, get_first_to_act_preflop}
use agent_poker.Poker.Engine.State.{at_seat}
use agent_poker.Poker.Engine.Create.{
  Holes, create_initial_state, deal_holes, seat_players, open_hand,
}
use agent_poker.Poker.Engine.Invariant.{money, IsPlaying}
use agent_poker.Poker.Engine.Opening.{setup_chips, Opened, create_initial_state-Opened}
use agent_poker.Poker.Engine.Hands.{Plays, Plays-money}

-- A player has chips left after the ante and either blind.
abbrev pub IsDeep : GameConfig → PlayerSetup → Type 0
IsDeep config p = config.ante + config.small_blind + config.big_blind < p.chips

abbrev CanAct : PlayerState → Type 0
CanAct p = (p.has_folded ≡ false) × (p.is_all_in ≡ false)

seated_CanAct :
    (config : GameConfig) (blinds : Blinds) (holes : Holes) (setups : List PlayerSetup)
    → All (IsDeep config) setups
    → All CanAct (seat_players config blinds holes setups)
seated_CanAct config blinds holes [] h = tt
seated_CanAct config blinds holes (p ∷ ps) h =
    ((refl, ground (arith, h.0)), seated_CanAct config blinds holes ps h.1)

open_hand-CanAct :
    (hand_id : ℕ) (setups : List PlayerSetup) (dealer : ℕ) (deck : List Card) (config : GameConfig)
    → All (IsDeep config) setups
    → Ensures (λ r. All CanAct r.0.players) (open_hand hand_id setups dealer deck config)
unfolding open_hand
open_hand-CanAct hand_id setups dealer deck config deep =
    let seats = map (λ (p : PlayerSetup). p.seat_index) setups in
    let P : GameState × List GameEvent → Type 0 = λ r. All CanAct r.0.players in
    Ensures-then P (deal_holes setups deck []) _ λ dealt _.
      Ensures-then P (get_blind_seats seats dealer) _ λ blinds _.
        let players = seat_players config blinds dealt.0 setups in
        Ensures-then P (or_throw (find_by (at_seat blinds.sb_seat) players) type_error) _ λ small _.
          Ensures-then P (or_throw (find_by (at_seat blinds.bb_seat) players) type_error) _ λ big _.
            Ensures-then P (get_first_to_act_preflop seats dealer) _
              λ first _. seated_CanAct config blinds dealt.0 setups deep

module _ {S : Type 0} (rng : S → ℕ × S) (hand_id : ℕ) (setups : List PlayerSetup) (dealer : ℕ)
    (seed : S) (config : GameConfig) where
  opening-CanAct :
      All (IsDeep config) setups
      → Ensures
          (λ r. (2 ≤ length setups) × All CanAct r.0.players)
          (create_initial_state rng hand_id setups dealer seed config)
  unfolding create_initial_state
  opening-CanAct deep =
      Ensures-if P (ltb (length setups) 2 || ltb 6 (length setups)) (err bad_player_count) _
        (λ _. tt)
        λ enough.
          Ensures-mono _ P _ (open_hand-CanAct hand_id setups dealer _ config deep)
            λ r can. (ground arith, can)
    where
      P : GameState × List GameEvent → Type 0
      P r = (2 ≤ length setups) × All CanAct r.0.players

  pub opening-IsPlaying :
      {s : GameState} {events : List GameEvent}
      → Distinct (map (λ p. p.id) setups)
      → All (IsDeep config) setups
      → create_initial_state rng hand_id setups dealer seed config ≡ ok (s, events)
      → IsPlaying s
        × (2 ≤ length setups)
        × (money s ≡ setup_chips setups)
        × (map (λ p. p.id) s.players ≡ map (λ p. p.id) setups)
  opening-IsPlaying {s} ids deep e =
      let opened =
        Ensures-ok (λ r. Opened setups r.0) _
          (create_initial_state-Opened rng hand_id setups dealer seed config ids
            (All-map _ _ (λ p d. omega (arith, d)) setups deep))
          e in
      let (two, can) = Ensures-ok _ _ (opening-CanAct deep) e in
      (
        record {
          sound = opened.sound;
          goes_on = opened.goes_on;
          turn = All-map CanAct _ (λ p c _. c) s.players can;
          two = omega (arith, opened.all_in_hand, two);
        },
        two,
        opened.brought,
        opened.same_ids,
      )

  -- In a hand that is opened for players with distinct ids, each with more chips than the ante and
  -- both blinds, the chips at the table are after any accepted actions those that the players
  -- brought, and the hand is over or satisfies the invariant.
  pub hand-money :
      {s t : GameState} {events : List GameEvent}
      → Distinct (map (λ p. p.id) setups)
      → All (IsDeep config) setups
      → create_initial_state rng hand_id setups dealer seed config ≡ ok (s, events)
      → Plays s t
      → (money t ≡ setup_chips setups) × ((t.is_hand_complete ≡ true) ⊎ IsPlaying t)
  hand-money ids deep e h =
      let (playing, two, brought, same_ids) = opening-IsPlaying ids deep e in
      let (same, state) = Plays-money playing h in (same ∙ brought, state)
