-- ===== src/Poker/Engine/Opening.antt =====
-- packages/poker-engine/src/engine.ts: the state that `createInitialState` returns.
use agent_poker.Base.{
  ℕ, suc, ◌+◌, ◌-◌, ◌≤◌, ◌<◌, ◌≡◌, refl, ap, true, false, ◌&&◌, ◌||◌, err, List, [], ◌∷◌, map,
  length, find_by, All, sum_by, or_throw, ◌==◌, ltb, Ensures, Ensures-then, Ensures-if, arith,
}
use agent_poker.Base.Laws.{Distinct}
use agent_poker.Poker.Types.{
  Card, GameState, GameConfig, PlayerSetup, GameEvent, type_error, bad_player_count,
}
use agent_poker.Poker.Positions.{Blinds, get_blind_seats, get_first_to_act_preflop}
use agent_poker.Poker.SidePots.Conserve.{bet_total, AllInPaid}
use agent_poker.Poker.Engine.State.{non_folded, chip_sum, at_seat}
use agent_poker.Poker.Engine.Finish.Claims.{AllInStays}
use agent_poker.Poker.Engine.Create.{
  Holes, create_initial_state, deal_holes, ante_of, posted_of, seat_players, open_hand,
}
use agent_poker.Poker.Engine.Invariant.{money, Sound}

abbrev pub setup_chips : List PlayerSetup → ℕ
setup_chips setups = sum_by (λ p. p.chips) setups

module _ (config : GameConfig) (blinds : Blinds) (holes : Holes) where
  -- Nobody posts more than the stack.
  posted-le : (p : PlayerSetup) → posted_of config blinds p ≤ p.chips
  posted-le p = ground arith

  seated_money :
      (setups : List PlayerSetup)
      → chip_sum (seat_players config blinds holes setups)
          + (sum_by (ante_of config) setups
              + sum_by (λ p. p.current_bet) (seat_players config blinds holes setups))
        ≡ setup_chips setups
  seated_money [] = omega arith
  seated_money (p ∷ ps) = omega (arith, seated_money ps, posted-le p)

  seated_funded :
      (setups : List PlayerSetup)
      → sum_by (ante_of config) setups
          + sum_by (λ p. p.current_bet) (seat_players config blinds holes setups)
        ≡ bet_total (seat_players config blinds holes setups)
  seated_funded [] = omega arith
  seated_funded (p ∷ ps) = omega (arith, seated_funded ps)

  seated_ids :
      (setups : List PlayerSetup)
      → map (λ p. p.id) (seat_players config blinds holes setups) ≡ map (λ p. p.id) setups
  seated_ids [] = refl
  seated_ids (p ∷ ps) = rw (seated_ids ps)

  seated_paid : (setups : List PlayerSetup) → AllInPaid (seat_players config blinds holes setups)
  seated_paid [] = tt
  seated_paid (p ∷ ps) = (
    λ e. paid_of (p.chips - posted_of config blinds p) (posted_of config blinds p) e,
    seated_paid ps,
  )
    where
      paid_of : (left posted : ℕ) → ((left == 0) && ltb 0 posted) ≡ true → 0 < posted
      paid_of left posted e = ground arith

  seated_stays : (setups : List PlayerSetup) → AllInStays (seat_players config blinds holes setups)
  seated_stays [] = tt
  seated_stays (p ∷ ps) = (λ e. refl, seated_stays ps)

  seated_stakes :
      (setups : List PlayerSetup)
      → All (λ p. 0 < p.chips) setups
      → All (λ p. 0 < p.chips + p.total_bet_this_hand) (seat_players config blinds holes setups)
  seated_stakes [] h = tt
  seated_stakes (p ∷ ps) h = (omega (arith, h.0, posted-le p), seated_stakes ps h.1)

  seated_count :
      (setups : List PlayerSetup)
      → length (non_folded (seat_players config blinds holes setups)) ≡ length setups
  seated_count [] = refl
  seated_count (p ∷ ps) = ap suc (seated_count ps)

-- What holds of the state that opens a hand: the pot and the stacks are what the players brought,
-- the table is in order, nobody has folded and the hand is not over.
pub record Opened (setups : List PlayerSetup) (s : GameState) : Type 0 where
  pub brought : money s ≡ setup_chips setups
  pub sound : Sound s.players s.pots
  pub all_in_hand : length (non_folded s.players) ≡ length setups
  pub goes_on : s.is_hand_complete ≡ false
  pub same_ids : map (λ p. p.id) s.players ≡ map (λ p. p.id) setups

-- From a shuffled deck: the hand opens on a table in order, if the ids are distinct, every player
-- brings chips and there is a player.
pub open_hand-Opened :
    (hand_id : ℕ) (setups : List PlayerSetup) (dealer : ℕ) (deck : List Card) (config : GameConfig)
    → Distinct (map (λ p. p.id) setups)
    → All (λ p. 0 < p.chips) setups
    → 1 ≤ length setups
    → Ensures (λ r. Opened setups r.0) (open_hand hand_id setups dealer deck config)
unfolding open_hand
open_hand-Opened hand_id setups dealer deck config ids stakes some_players =
    let seats = map (λ (p : PlayerSetup). p.seat_index) setups in
    Ensures-then (λ (r : GameState × List GameEvent). Opened setups r.0) (deal_holes setups deck [])
      _
      λ dealt _.
        Ensures-then (λ (r : GameState × List GameEvent). Opened setups r.0)
          (get_blind_seats seats dealer) _
          λ blinds _.
            let players = seat_players config blinds dealt.0 setups in
            Ensures-then (λ (r : GameState × List GameEvent). Opened setups r.0)
              (or_throw (find_by (at_seat blinds.sb_seat) players) type_error) _
              λ small _.
                Ensures-then (λ (r : GameState × List GameEvent). Opened setups r.0)
                  (or_throw (find_by (at_seat blinds.bb_seat) players) type_error) _
                  λ big _.
                    Ensures-then (λ (r : GameState × List GameEvent). Opened setups r.0)
                      (get_first_to_act_preflop seats dealer) _
                      λ first _. record {
                        brought = omega (arith, seated_money config blinds dealt.0 setups);
                        sound = record {
                          funded = omega (arith, seated_funded config blinds dealt.0 setups);
                          ids = rw (seated_ids config blinds dealt.0 setups) ids;
                          paid = seated_paid config blinds dealt.0 setups;
                          stays = seated_stays config blinds dealt.0 setups;
                          stakes = seated_stakes config blinds dealt.0 setups stakes;
                          somebody = omega (arith, seated_count config blinds dealt.0 setups);
                        };
                        all_in_hand = seated_count config blinds dealt.0 setups;
                        goes_on = refl;
                        same_ids = seated_ids config blinds dealt.0 setups;
                      }

-- If the ids are distinct and every player brings chips, a hand that `createInitialState` opens
-- has a sound table, whose stacks and pot are what the players brought; nobody has folded, it is
-- not over and the players have the ids of the setups, in order.
pub create_initial_state-Opened :
    {S : Type 0} (rng : S → ℕ × S) (hand_id : ℕ) (setups : List PlayerSetup) (dealer : ℕ) (s : S)
    (config : GameConfig)
    → Distinct (map (λ p. p.id) setups)
    → All (λ p. 0 < p.chips) setups
    → Ensures (λ r. Opened setups r.0) (create_initial_state rng hand_id setups dealer s config)
unfolding create_initial_state
create_initial_state-Opened rng hand_id setups dealer s config ids stakes =
    Ensures-if (λ (r : GameState × List GameEvent). Opened setups r.0)
      (ltb (length setups) 2 || ltb 6 (length setups)) (err bad_player_count) _ (λ _. tt)
      λ enough. open_hand-Opened hand_id setups dealer _ config ids stakes (ground arith)
