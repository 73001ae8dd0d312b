-- ===== src/Server/Ws/Isolated.antt =====
-- apps/game-server/src/ws-handler.ts: an action stays at its table, and one with no hand ends it.
use agent_poker.Base.{
  ℕ, ◌≡◌, refl, ap, ap₂, ◌∙◌, List, [], ◌∷◌, ◌++◌, filter_by, find_by, update_by, includes, Option,
  none, some, Bool, true, false, not, ◌&&◌, ◌==◌, ==_iff, inl, inr, Bool-cases, err, All, arith,
}
use agent_poker.Base.Append.{append_nil}
use agent_poker.Poker.Types.{PlayerAction}
use agent_poker.History.HashChain.{Text, text_eq}
use agent_poker.Server.RateLimiter.{RateCheck, allowed}
use agent_poker.Server.Table.{TableActor, no_active_hand}
use agent_poker.Server.Table.Hand.{process_action, process_with}
use agent_poker.Server.Ws.{
  GameServerWs, ConnectedClient, Message, error_message, table_terminated, send, send_each,
  at_table, is_table, get_table, get_client, terminate_table,
}
use agent_poker.Server.Ws.Hello.{WsEnvelope, ActionPayload}
use agent_poker.Server.Ws.Frames.{addressed, send_each_lem, handle_action-Goes}
use agent_poker.Base.Laws.{find_by-some}
use agent_poker.Server.Table.Cases.{process_action-table_id}
use agent_poker.Server.Ws.Play.{
  handle_action, act_for, act_at, action_failed, player_action, store_table,
}
use agent_poker.Server.Ws.Private.{to_socket, to_socket-append}

-- The tables but one.
abbrev pub others : Text → List TableActor → List TableActor
others id ts = filter_by (λ t. not (is_table id t)) ts

-- A socket of nobody who is at a table.
abbrev pub IsElsewhere : Text → ℕ → List ConnectedClient → Type 0
IsElsewhere id k cs = All (λ d. d.ws ≡ k → at_table id d ≡ false) cs

module _ (id : Text) (k : ℕ) where
  abbrev elsewhere : GameServerWs → List TableActor × List (ℕ × Message)
  elsewhere s = (others id s.tables, to_socket k s.sent)

  unheard :
      (msg : ConnectedClient → Message) (sockets : List ℕ) (cs : List ConnectedClient)
      → IsElsewhere id k cs
      → to_socket k (addressed id msg cs sockets) ≡ []
  unheard msg sockets [] h = refl
  unheard msg sockets (c ∷ cs) h = elim (Bool-cases (at_table id c && includes c.ws sockets)) [
    | inr away ↦ rw away (unheard msg sockets cs h.1)
    | inl here ↦ elim (Bool-cases (c.ws == k)) [
      | inr another ↦ rw (here, another) (unheard msg sockets cs h.1)
      | inl mine ↦
          let gone = h.0 ((==_iff c.ws k).0 mine) in absurd (clash (at_table id c) _ here gone)
    ]
  ]
    where
      clash : (a b : Bool) → (a && b) ≡ true → a ≡ false → ⊥
      clash a b h g = ground arith

  send-elsewhere :
      (ws : ℕ)
      → (ws == k) ≡ false
      → (msg : Message) (s : GameServerWs) → elsewhere (send ws msg s) ≡ elsewhere s
  unfolding send
  send-elsewhere ws other msg s = elim (Bool-cases (includes ws s.open_sockets)) [
    | inr shut ↦ rw (shut, send) refl
    | inl reached ↦
        rw (reached, send)
          (ap (λ l. (others id s.tables, l))
            (to_socket-append k s.sent ((ws, msg) ∷ [])
              ∙ rw other (append_nil (to_socket k s.sent))))
  ]

  send_each-sent :
      (msg : ConnectedClient → Message) (s : GameServerWs)
      → IsElsewhere id k s.clients
      → to_socket k (send_each id msg s.clients s).sent ≡ to_socket k s.sent
  send_each-sent msg s h = rw (send_each_lem id msg s.clients s) (
      to_socket-append k s.sent _
      ∙ ap (λ l. to_socket k s.sent ++ l) (unheard msg s.open_sockets s.clients h)
      ∙ append_nil (to_socket k s.sent))

  send_each-elsewhere :
      (msg : ConnectedClient → Message) (s : GameServerWs)
      → IsElsewhere id k s.clients
      → elsewhere (send_each id msg s.clients s) ≡ elsewhere s
  send_each-elsewhere msg s h =
      ap₂ (λ a b. (a, b))
        (ap (λ (g : GameServerWs). others id g.tables) (send_each_lem id msg s.clients s))
        (send_each-sent msg s h)

  others-others : (ts : List TableActor) → others id (others id ts) ≡ others id ts
  others-others [] = refl
  others-others (t ∷ ts) = elim (Bool-cases (is_table id t)) [
    | inl it ↦ rw it (others-others ts)
    | inr other ↦ rw (other, other) (ap (λ l. t ∷ l) (others-others ts))
  ]

  terminate_table-elsewhere :
      (s : GameServerWs)
      → IsElsewhere id k s.clients
      → elsewhere (terminate_table id s) ≡ elsewhere s
  unfolding terminate_table
  terminate_table-elsewhere s h =
      ap₂ (λ a b. (a, b))
        (ap (λ (g : GameServerWs). others id (others id g.tables))
            (send_each_lem id (λ _. error_message table_terminated none) s.clients s)
          ∙ others-others s.tables)
        (send_each-sent (λ _. error_message table_terminated none) s h)

  store_table-elsewhere :
      (t : TableActor) (s : GameServerWs)
      → is_table id t ≡ true
      → elsewhere (store_table id t s) ≡ elsewhere s
  store_table-elsewhere t s h = ap (λ l. (l, to_socket k s.sent)) (stored s.tables)
    where
      stored :
          (ts : List TableActor) → others id (update_by (is_table id) (λ _. t) ts) ≡ others id ts
      stored [] = refl
      stored (x ∷ xs) = elim (Bool-cases (is_table id x)) [
        | inl it ↦ rw (it, h) refl
        | inr other ↦ rw (other, other) (ap (λ l. x ∷ l) (stored xs))
      ]

-- However the action of a registered client goes, all tables but the client's are as they were,
-- and another socket, whose clients are all at other tables, is sent nothing.
pub handle_action-isolated :
    (check : RateCheck) (ws k : ℕ) (msg : WsEnvelope) (s : GameServerWs) (c : ConnectedClient)
    → get_client ws s ≡ some c
    → (ws == k) ≡ false
    → IsElsewhere c.table_id k s.clients
    → (others c.table_id (handle_action check ws msg s).tables ≡ others c.table_id s.tables)
      × (to_socket k (handle_action check ws msg s).sent ≡ to_socket k s.sent)
handle_action-isolated check ws k msg s c known other away =
    let id = c.table_id in
    let same =
      handle_action-Goes (λ g h. elsewhere id k h ≡ elsewhere id k g) (λ g. refl)
        (λ f g h p q. q ∙ p) ws c (IsElsewhere id k) (send-elsewhere id k ws other)
        (send_each-elsewhere id k) (terminate_table-elsewhere id k)
        (λ action request seq t g found.
          store_table-elsewhere id k (process_action c.agent_id action request seq t).0 g (
            ap (λ i. text_eq i id) (process_action-table_id c.agent_id action request seq t)
            ∙ find_by-some (is_table id) g.tables found))
        (λ ids g. refl) check msg s known away in
    (ap (λ p. p.0) same, ap (λ p. p.1) same)

get_table-others : (id : Text) (ts : List TableActor) → find_by (is_table id) (others id ts) ≡ none
get_table-others id [] = refl
get_table-others id (t ∷ ts) = elim (Bool-cases (is_table id t)) [
  | inl it ↦ rw it (get_table-others id ts)
  | inr other ↦ rw (other, other) (get_table-others id ts)
]

-- A table that is ended is gone, and its clients have been told.
terminate_table_lem :
    (id : Text) (s : GameServerWs)
    → (get_table id (terminate_table id s) ≡ none)
      × ((terminate_table id s).sent
          ≡ s.sent
            ++ addressed id (λ _. error_message table_terminated none) s.clients s.open_sockets)
unfolding terminate_table
terminate_table_lem id s =
    let told = send_each_lem id (λ _. error_message table_terminated none) s.clients s in
    (
      get_table-others id
          (send_each id (λ _. error_message table_terminated none) s.clients s).tables,
      ap (λ (g : GameServerWs). g.sent) told,
    )

process_action-idle :
    (id : ℕ) (action : PlayerAction) (request : Option Text) (seq : Option ℕ) (t : TableActor)
    → t.current_state ≡ none
    → process_action id action request seq t ≡ (t, err no_active_hand)
unfolding process_action process_with
process_action-idle id action request seq t idle =
    ap (λ o. process_with o id action request seq t) idle

act_at-idle :
    (ws : ℕ) (c : ConnectedClient) (msg : WsEnvelope) (action : PlayerAction) (t : TableActor)
    (s : GameServerWs)
    → t.current_state ≡ none
    → act_at ws c msg action t s ≡ terminate_table c.table_id (store_table c.table_id t s)
unfolding act_at action_failed
act_at-idle ws c msg action t s idle =
    let refused = process_action-idle c.agent_id action msg.request_id msg.seq t idle in
    rw (ap (λ r. r.1) refused, ap (λ r. r.0) refused, act_at) refl

-- If a registered client that the limiter allows sends a valid action to its table while no hand
-- is going on, then the table is removed from the server, and what is sent is that the table is
-- terminated, to every client of the table on an open socket.
pub handle_action-terminates :
    (check : RateCheck) (ws : ℕ) (msg : WsEnvelope) (s : GameServerWs) (c : ConnectedClient)
    (t : TableActor) (p : ActionPayload)
    → get_client ws s ≡ some c
    → check ≡ allowed
    → get_table c.table_id s ≡ some t
    → msg.action_payload ≡ some p
    → t.current_state ≡ none
    → (get_table c.table_id (handle_action check ws msg s) ≡ none)
      × ((handle_action check ws msg s).sent
          ≡ s.sent
            ++ addressed c.table_id
                (λ _. error_message table_terminated none)
                s.clients
                s.open_sockets)
unfolding handle_action act_for
handle_action-terminates check ws msg s c t p known free found good idle =
    let acts : handle_action check ws msg s ≡ act_for ws c msg s =
      rw (known, free, handle_action) refl in
    let plays : act_for ws c msg s ≡ act_at ws c msg (player_action p) t s =
      simp (found, good, act_for) in
    let ends = acts ∙ plays ∙ act_at-idle ws c msg (player_action p) t s idle in
    rw ends (terminate_table_lem c.table_id (store_table c.table_id t s))
