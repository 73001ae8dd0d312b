-- ===== src/Server/Ws/Private.antt =====
-- apps/game-server/src/ws-handler.ts: what an agent learns of the other agents' cards.
use agent_poker.Base.{
  ℕ, ◌≡◌, refl, sym, ap, ap₂, ◌∙◌, subst, List, [], ◌∷◌, ◌++◌, map, filter_by, includes, Option,
  none, some, true, false, ◌&&◌, ◌==◌, ==_iff, ok, err, inl, inr, Bool-cases, Result-cases, All,
  arith,
}
use agent_poker.Poker.Types.{GameState, PlayerState, Outcome}
use agent_poker.Poker.Positions.{Position, assign_positions}
use agent_poker.History.HashChain.{Text}
use agent_poker.Server.RingBuffer.{EventRingBuffer}
use agent_poker.Server.Ws.{GameServerWs, ConnectedClient, Message, at_table, state_message}
use agent_poker.Server.Ws.Views.{
  hide_cards, sanitize_state_for_player, positions_of, view_message, broadcast_state,
}
use agent_poker.Server.Ws.Hello.{Admission, welcome_message}
use agent_poker.Server.Ws.Frames.{addressed, send_each_lem}

-- Two players that differ at most in the cards of another agent than the one who looks.
abbrev pub IsAlike : ℕ → PlayerState → PlayerState → Type 0
IsAlike id p q =
    (record p { hole_cards = [] } ≡ record q { hole_cards = [] })
    × (p.id ≡ id → p.hole_cards ≡ q.hole_cards)

abbrev pub AreAlike : ℕ → List PlayerState → List PlayerState → Type 0
AreAlike id [] [] = Unit
AreAlike id (p ∷ ps) (q ∷ qs) = IsAlike id p q × AreAlike id ps qs
AreAlike id [] (q ∷ qs) = ⊥
AreAlike id (p ∷ ps) [] = ⊥

-- Two states that differ at most in the deck and in the cards of other agents.
abbrev pub LooksAlike : ℕ → GameState → GameState → Type 0
LooksAlike id s t =
    (record s { deck = []; players = [] } ≡ record t { deck = []; players = [] })
    × AreAlike id s.players t.players

hide-alike :
    (id : ℕ) (p q : PlayerState) → IsAlike id p q → hide_cards false id p ≡ hide_cards false id q
hide-alike id p q h =
    let same_id : p.id ≡ q.id = ap (λ (x : PlayerState). x.id) h.0 in
    elim (Bool-cases (p.id == id)) [
      | inl own ↦
          let cards = h.1 ((==_iff p.id id).0 own) in
          rw (own, (subst (λ k. (k == id) ≡ true) same_id own))
            (λ i. record (h.0 i) { hole_cards = cards i })
      | inr other ↦ rw (other, (subst (λ k. (k == id) ≡ false) same_id other)) (h.0)
    ]

hidden-alike :
    (id : ℕ) (ps qs : List PlayerState)
    → AreAlike id ps qs
    → map (hide_cards false id) ps ≡ map (hide_cards false id) qs
hidden-alike id [] [] h = refl
hidden-alike id (p ∷ ps) (q ∷ qs) h =
    ap₂ (λ x xs. x ∷ xs) (hide-alike id p q h.0) (hidden-alike id ps qs h.1)
hidden-alike id [] (q ∷ qs) h = absurd h
hidden-alike id (p ∷ ps) [] h = absurd h

seats-alike :
    (id : ℕ) (ps qs : List PlayerState)
    → AreAlike id ps qs
    → map (λ (p : PlayerState). p.seat_index) ps ≡ map (λ (p : PlayerState). p.seat_index) qs
seats-alike id [] [] h = refl
seats-alike id (p ∷ ps) (q ∷ qs) h =
    ap₂ (λ x xs. x ∷ xs) (ap (λ (x : PlayerState). x.seat_index) h.0.0) (seats-alike id ps qs h.1)
seats-alike id [] (q ∷ qs) h = absurd h
seats-alike id (p ∷ ps) [] h = absurd h

module _ (id : ℕ) (s t : GameState) (alike : LooksAlike id s t)
    (on : s.is_hand_complete ≡ false) where
  sanitize-alike : sanitize_state_for_player s id ≡ sanitize_state_for_player t id
  unfolding sanitize_state_for_player
  sanitize-alike =
      let t_on = ap (λ (x : GameState). x.is_hand_complete) (sym (alike.0)) ∙ on in
      let shown : map (hide_cards s.is_hand_complete id) s.players
          ≡ map (hide_cards t.is_hand_complete id) t.players =
        rw (on, t_on) (hidden-alike id s.players t.players alike.1) in
      λ i.
        let x : GameState = alike.0 i in
        record {
          hand_id = x.hand_id;
          config = x.config;
          street = x.street;
          players = shown i;
          dealer_seat_index = x.dealer_seat_index;
          active_player_seat_index = x.active_player_seat_index;
          community_cards = x.community_cards;
          pots = x.pots;
          bets_this_street = x.bets_this_street;
          last_raise_size = x.last_raise_size;
          is_hand_complete = x.is_hand_complete;
          winners = x.winners;
          result_summary = x.result_summary;
        }

  positions-alike : positions_of s ≡ positions_of t
  positions-alike =
      ap₂ assign_positions (seats-alike id s.players t.players alike.1)
        (ap (λ (x : GameState). x.dealer_seat_index) alike.0)

-- The messages to a socket.
abbrev pub to_socket : ℕ → List (ℕ × Message) → List (ℕ × Message)
to_socket ws msgs = filter_by (λ m. m.0 == ws) msgs

-- What a socket has been sent when a call returns; nothing is known of a call that throws.
abbrev pub heard : ℕ → Outcome GameServerWs → Option (List (ℕ × Message))
heard ws (ok g) = some (to_socket ws g.sent)
heard ws (err e) = none

pub to_socket-append :
    (ws : ℕ) (xs ys : List (ℕ × Message))
    → to_socket ws (xs ++ ys) ≡ to_socket ws xs ++ to_socket ws ys
to_socket-append ws [] ys = refl
to_socket-append ws (x ∷ xs) ys = ground (arith, to_socket-append ws xs ys)

-- Messages that are the same for the agent's socket.
addressed-alike :
    (id ws : ℕ) (table : Text) (f g : ConnectedClient → Message) (sockets : List ℕ)
    (cs : List ConnectedClient)
    → ((c : ConnectedClient) → c.agent_id ≡ id → f c ≡ g c)
    → All (λ c. c.ws ≡ ws → c.agent_id ≡ id) cs
    → to_socket ws (addressed table f cs sockets) ≡ to_socket ws (addressed table g cs sockets)
addressed-alike id ws table f g sockets [] same own = refl
addressed-alike id ws table f g sockets (c ∷ cs) same own =
    let rest = addressed-alike id ws table f g sockets cs same own.1 in
    elim (Bool-cases (at_table table c && includes c.ws sockets)) [
      | inr away ↦ rw away rest
      | inl here ↦ elim (Bool-cases (c.ws == ws)) [
        | inr another ↦ rw (here, another) rest
        | inl mine ↦
            rw (here, mine)
              (ap₂ (λ m l. (c.ws, m) ∷ l) (same c (own.0 ((==_iff c.ws ws).0 mine))) rest)
      ]
    ]

-- While a hand goes on, what a broadcast of its state sends to a socket of an agent is the same
-- for any two states that differ at most in the deck and in the hole cards of other agents.
pub broadcast_state-private :
    (id ws : ℕ) (table : Text) (s t : GameState) (g : GameServerWs)
    → LooksAlike id s t
    → s.is_hand_complete ≡ false
    → All (λ c. c.ws ≡ ws → c.agent_id ≡ id) g.clients
    → heard ws (broadcast_state table s g) ≡ heard ws (broadcast_state table t g)
unfolding broadcast_state
broadcast_state-private id ws table s t g alike on own =
    rw (← positions-alike id s t alike on) (elim (Result-cases (positions_of s)) [
      | inr (e, thrown) ↦ rw thrown refl
      | inl (positions, known) ↦
          rw
            (
              known,
              send_each_lem table (view_message s positions) g.clients g,
              send_each_lem table (view_message t positions) g.clients g,
            )
            (ap some (told positions))
    ])
  where
    seen :
        (positions : List (ℕ × Position)) (c : ConnectedClient)
        → c.agent_id ≡ id
        → view_message s positions c ≡ view_message t positions c
    seen positions c e =
        ap (λ v. state_message v positions)
          (subst (λ k. sanitize_state_for_player s k ≡ sanitize_state_for_player t k) (sym e)
            (sanitize-alike id s t alike on))

    told :
        (positions : List (ℕ × Position))
        → to_socket ws
            (g.sent ++ addressed table (view_message s positions) g.clients g.open_sockets)
          ≡ to_socket ws
              (g.sent ++ addressed table (view_message t positions) g.clients g.open_sockets)
    told positions =
        to_socket-append ws g.sent _
        ∙ ap (λ l. to_socket ws g.sent ++ l)
            (addressed-alike id ws table (view_message s positions) (view_message t positions)
              g.open_sockets g.clients (seen positions) own)
        ∙ sym (to_socket-append ws g.sent _)

abbrev pub with_hand : GameState → Admission → Admission
with_hand s a = record a { table = record a.table { current_state = some s } }

-- While a hand goes on, the welcome of an agent is the same for any two states that differ at most
-- in the deck and in the hole cards of other agents.
pub welcome_message-private :
    (a : Admission) (buffer : Option EventRingBuffer) (s t : GameState)
    → LooksAlike a.payload.agent_id s t
    → s.is_hand_complete ≡ false
    → welcome_message (with_hand s a) buffer ≡ welcome_message (with_hand t a) buffer
unfolding welcome_message
welcome_message-private a buffer s t alike on =
    rw
      (
        ← positions-alike a.payload.agent_id s t alike on,
        sanitize-alike a.payload.agent_id s t alike on,
      )
      refl
