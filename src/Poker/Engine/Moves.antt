-- ===== src/Poker/Engine/Moves.antt =====
-- packages/poker-engine/src/engine.ts: the five moves of a player.
use agent_poker.Base.{
  ℕ, ◌+◌, ◌≤◌, ◌<◌, ◌≡◌, refl, sym, ap, ◌∙◌, min, true, false, List, [], ◌∷◌, length, find_by,
  update_by, Option, some, ok, ◌==◌, Ensures, Ensures-bind, Ensures-mono, Ensures-then, Ensures-if,
  ok_inj, arith, inl, inr, ◌⊎◌,
}
use agent_poker.Base.Laws.{
  sum_by-update, sum_by-map_keep, sum_by-update_keep, map-update_by, All-update_found, find_by-All,
}
use agent_poker.Poker.Types.{GameState, PlayerState, Pot, ActionType, fold, check, call, bet, raise}
use agent_poker.Poker.SidePots.Conserve.{pot_total}
use agent_poker.Poker.Engine.State.{non_folded, has_id, pot_sum}
use agent_poker.Poker.Engine.Legal.{to_call, is_raise_cap_reached}
use agent_poker.Poker.Engine.Apply.{
  put_in, add_to_main, reopen, bet_amount, raise_amount, commit, aggress, fold_player, check_player,
  perform,
}
use agent_poker.Poker.Engine.Amounts.{bet_amount-le, raise_amount-le}
use agent_poker.Poker.Engine.Invariant.{
  money, Sound, Harmless, Sound-map, Sound-update, length-update, length-non_folded-Harmless,
}
use agent_poker.Poker.Engine.Conserve.{Turn, Finishes, finish_hand-Finishes}
use agent_poker.Poker.Engine.Advance.{Betting}

-- What a move leaves: the same chips, and a complete hand or one that can be bet on.
abbrev pub Moved : ℕ → Turn → Type 0
Moved chips r = (money r.0 ≡ chips) × ((r.0.is_hand_complete ≡ true) ⊎ Betting r.0)

add_to_main-total :
    (amount : ℕ) (pots : List Pot) {after : List Pot}
    → add_to_main amount pots ≡ ok after
    → pot_total after ≡ pot_total pots + amount
add_to_main-total amount [] e = cc
add_to_main-total amount (q ∷ qs) e = rw (← ok_inj e) (omega arith)

reopen-Harmless : (id : ℕ) → Harmless (reopen id)
reopen-Harmless id = record {
  id = λ p. ground arith;
  chips = λ p. ground arith;
  total = λ p. ground arith;
  folded = λ p. ground arith;
  all_in = λ p. ground arith;
}

length-fold :
    (id : ℕ) (player : PlayerState) (ps : List PlayerState)
    → find_by (has_id id) ps ≡ some player
    → player.has_folded ≡ false
    → length (non_folded (update_by (has_id id) fold_player ps)) + 1 ≡ length (non_folded ps)
length-fold id player [] found h = cc
length-fold id player (p ∷ ps) found h = ground (arith, length-fold id player ps)

two_left : (n : ℕ) → 1 ≤ n → (n == 1) ≡ false → 2 ≤ n
two_left n h e = ground arith

check_Harmless : Harmless check_player
check_Harmless = record {
  id = λ p. refl;
  chips = λ p. refl;
  total = λ p. refl;
  folded = λ p. refl;
  all_in = λ p. refl;
}

module _ (s : GameState) (id : ℕ) (player : PlayerState) (b : Betting s)
    (found : find_by (has_id id) s.players ≡ some player) (in_hand : player.has_folded ≡ false)
    (can_act : player.is_all_in ≡ false) where
  -- Chips that the player has go to the main pot.
  commit-Betting :
      (amount : ℕ)
      → amount ≤ player.chips
      → Ensures (λ t. (money t ≡ money s) × Betting t) (commit id amount s)
  unfolding commit
  commit-Betting amount h =
      Ensures-then (λ t. (money t ≡ money s) × Betting t) (add_to_main amount s.pots) _
        λ pots e.
          let chips =
            sum_by-update (λ (p : PlayerState). p.chips) (put_in amount) (has_id id) s.players
              found in
          let total =
            sum_by-update (λ (p : PlayerState). p.total_bet_this_hand) (put_in amount) (has_id id)
              s.players found in
          let pot = add_to_main-total amount s.pots e in
          let count = length-update (put_in amount) (has_id id) s.players (λ x. refl) in
          let stake =
            (find_by-All (λ (p : PlayerState). 0 < p.chips + p.total_bet_this_hand) (has_id id)
              s.players b.sound.stakes found).0 in
          (
            omega (arith, chips, pot),
            record {
              sound = record {
                funded = omega (arith, total, pot, b.sound.funded);
                ids =
                    rw (map-update_by (λ p. p.id) (put_in amount) (has_id id) s.players (λ x. refl))
                      b.sound.ids;
                paid =
                    All-update_found _ (put_in amount) (has_id id) s.players found
                      (λ _ all_in. ground (arith, stake)) b.sound.paid;
                stays =
                    All-update_found _ (put_in amount) (has_id id) s.players found (λ _ _. in_hand)
                      b.sound.stays;
                stakes =
                    All-update_found _ (put_in amount) (has_id id) s.players found
                      (λ _. omega arith) b.sound.stakes;
                somebody = rw count b.sound.somebody;
              };
              goes_on = b.goes_on;
              two = rw count b.two;
            },
          )

  -- So does what `BET` and `RAISE` add.
  aggress-Moved :
      (type : ActionType) (amount size : ℕ)
      → amount ≤ player.chips
      → Ensures (Moved (money s)) (aggress id type amount size s)
  unfolding aggress
  aggress-Moved type amount size h =
      Ensures-bind (λ t. (money t ≡ money s) × Betting t) (Moved (money s)) (commit id amount s) _
        (commit-Betting amount h)
        λ t m. (
          ap (λ n. n + pot_sum t)
                (sum_by-map_keep (λ p. p.chips) (reopen id) t.players (reopen-Harmless id).chips)
              ∙ m.0,
          inr (record {
            sound = Sound-map (reopen-Harmless id) m.1.sound;
            goes_on = m.1.goes_on;
            two = rw (length-non_folded-Harmless t.players (reopen-Harmless id)) m.1.two;
          }),
        )

  -- The player leaves the hand; the last one left wins it.
  fold-Moved : (amount : Option ℕ) → Ensures (Moved (money s)) (perform fold amount id player s)
  unfolding perform
  fold-Moved amount =
      let folded : GameState = record s { players = update_by (has_id id) fold_player s.players } in
      let count = length-fold id player s.players found in_hand in
      let left = length (non_folded folded.players) in
      let chips : money folded ≡ money s =
        ap (λ n. n + pot_sum s)
          (sum_by-update_keep (λ p. p.chips) fold_player (has_id id) s.players (λ x. refl)) in
      let sound : Sound folded.players folded.pots = record {
        funded =
            b.sound.funded
            ∙ sym (
                sum_by-update_keep (λ p. p.total_bet_this_hand) fold_player (has_id id) s.players
                  (λ x. refl));
        ids =
            rw (map-update_by (λ p. p.id) fold_player (has_id id) s.players (λ x. refl))
              b.sound.ids;
        paid = All-update_found _ fold_player (has_id id) s.players found (λ k. k) b.sound.paid;
        stays =
            All-update_found _ fold_player (has_id id) s.players found (λ _ all_in. cc)
              b.sound.stays;
        stakes = All-update_found _ fold_player (has_id id) s.players found (λ k. k) b.sound.stakes;
        somebody = omega (arith, count, b.two);
      } in
      Ensures-if (Moved (money s)) (left == 1) _ _
        (λ _.
          Ensures-mono (Finishes folded) (Moved (money s)) _ (finish_hand-Finishes folded _ sound)
            λ r h. (h.0 ∙ chips, inl h.1))
        λ more. (
          chips,
          inr (record {
            sound = sound;
            goes_on = b.goes_on;
            two = two_left left (omega (arith, count, b.two)) more;
          }),
        )

  check-Moved : (amount : Option ℕ) → Ensures (Moved (money s)) (perform check amount id player s)
  unfolding perform
  check-Moved amount = (
    ap (λ n. n + pot_sum s)
        (sum_by-update_keep (λ p. p.chips) check_player (has_id id) s.players (λ x. refl)),
    inr (record {
      sound = Sound-update (has_id id) check_Harmless b.sound;
      goes_on = b.goes_on;
      two = rw (length-update check_player (has_id id) s.players (λ x. refl)) b.two;
    }),
  )

  call-Moved : (amount : Option ℕ) → Ensures (Moved (money s)) (perform call amount id player s)
  unfolding perform
  call-Moved amount =
      Ensures-bind (λ t. (money t ≡ money s) × Betting t) (Moved (money s))
        (commit id (min (to_call s player) player.chips) s) _ (commit-Betting _ (omega arith))
        λ t m. (m.0, inr m.1)

  bet-Moved : (amount : Option ℕ) → Ensures (Moved (money s)) (perform bet amount id player s)
  unfolding perform
  bet-Moved amount =
      Ensures-bind (λ a. a ≤ player.chips) (Moved (money s))
        (bet_amount s.config.betting_mode s player amount) _
        (bet_amount-le s.config.betting_mode s player amount) λ a h. aggress-Moved bet a a h

  raise-Moved : (amount : Option ℕ) → Ensures (Moved (money s)) (perform raise amount id player s)
  unfolding perform
  raise-Moved amount =
      Ensures-if (Moved (money s)) (is_raise_cap_reached s) _ _ (λ _. tt)
        λ _.
          Ensures-bind (λ (r : ℕ × ℕ). r.0 ≤ player.chips) (Moved (money s))
            (raise_amount s.config.betting_mode s player amount) _
            (raise_amount-le s.config.betting_mode s player amount)
            λ r h. aggress-Moved raise r.0 _ h

  -- Every move keeps the chips, and leaves a complete hand or one that can be bet on.
  pub perform-Moved :
      (type : ActionType) (amount : Option ℕ)
      → Ensures (Moved (money s)) (perform type amount id player s)
  perform-Moved fold amount = fold-Moved amount
  perform-Moved check amount = check-Moved amount
  perform-Moved call amount = call-Moved amount
  perform-Moved bet amount = bet-Moved amount
  perform-Moved raise amount = raise-Moved amount
