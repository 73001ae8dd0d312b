-- ===== src/Server/Ws/Kept.antt =====
-- apps/game-server/src/ws-handler.ts: the tables of a server, whatever happens.
use agent_poker.Base.{
  ℕ, ◌≡◌, refl, sym, subst, List, [], ◌∷◌, update_by, any, includes, Option, none, some, not, ◌==◌,
  ltb, inl, inr, Bool-cases, Option-cases, All, arith, get_key, set_key,
}
use agent_poker.History.HashChain.{Text, text_eq}
use agent_poker.Server.RateLimiter.{RateCheck}
use agent_poker.Server.SeatToken.{Jwt}
use agent_poker.Server.Table.{TableActor, SeatInfo, add_seat, remove_seat, of_agent}
use agent_poker.Server.Table.Hand.{start_hand, process_action, handle_timeout, close}
use agent_poker.Server.Table.Sound.{SeatsSound}
use agent_poker.Server.Table.Served.{Served, opens, acts, Served-Kept, SameSeats, SeatsSound-same}
use agent_poker.Server.Ws.{
  GameServerWs, ConnectedClient, Message, get_table, get_client, register_table, send, new_server,
}
use agent_poker.Server.Ws.Tables.{
  IsKept, Keeps, put_table-All, map-All, send-Keeps, stored-Keeps, dispatch-Keeps,
  try_start_hand-Keeps,
}
use agent_poker.Server.Ws.Server.{
  Event, registers, joins, leaves, connects, receives, pongs, closes, beats, starts_first,
  starts_next, times_out, stops, announces_stop, forces_stop, Parsed, not_json, not_envelope,
  envelope, run, step, handle_message, handle_parsed, receive, handle_connection, handle_close,
  beat, send_all, announce_stop, force_stop, time_out_at, drop_if, drop_client, leave_if,
  protocol_version, max_message_size, bytes_per_second_limit, count_bytes, bandwidth_or_new,
  without_socket, drop_first, count_down, seat_in,
}

-- The tables that are registered have a property.
abbrev pub Brings : (TableActor → Type 0) → Event → Type 0
Brings P (registers t) = P t
Brings P e = Unit

module _ (P : TableActor → Type 0) (kept : IsKept P) where
  handle_parsed-Keeps :
      (check : RateCheck) (jwt : Jwt) (ws : ℕ) (parsed : Parsed) (s : GameServerWs)
      → Keeps P s (handle_parsed check jwt ws parsed s).0
  unfolding handle_parsed handle_message
  handle_parsed-Keeps check jwt ws not_json s h = send-Keeps P ws _ s h
  handle_parsed-Keeps check jwt ws not_envelope s h = send-Keeps P ws _ s h
  handle_parsed-Keeps check jwt ws (envelope msg) s h =
      elim (Bool-cases (not (msg.protocol_version == protocol_version))) [
        | inl old ↦ rw (old, handle_message) (send-Keeps P ws _ s h)
        | inr same ↦ rw (same, handle_message) (dispatch-Keeps P kept msg.type check jwt ws msg s h)
      ]

  receive-Keeps :
      (now : ℕ) (check : RateCheck) (jwt : Jwt) (ws bytes : ℕ) (parsed : Parsed) (s : GameServerWs)
      → Keeps P s (receive now check jwt ws bytes parsed s).0
  unfolding receive
  receive-Keeps now check jwt ws bytes parsed s h =
      let b = count_bytes now bytes (bandwidth_or_new now (get_key ◌==◌ ws s.bandwidths)) in
      let noted = record s { bandwidths = set_key ◌==◌ ws b s.bandwidths } in
      elim (Bool-cases (ltb bytes_per_second_limit b.bytes_this_second)) [
        | inl fast ↦ rw (fast, receive) (send-Keeps P ws _ noted h)
        | inr slow ↦ elim (Bool-cases (ltb max_message_size bytes)) [
          | inl long ↦ rw (slow, long, receive) (send-Keeps P ws _ noted h)
          | inr short ↦ rw (slow, short, receive) (handle_parsed-Keeps check jwt ws parsed noted h)
        ]
      ]

  drop_client-tables :
      (c : ConnectedClient) (s : GameServerWs) → (drop_client c s).tables ≡ s.tables
  unfolding drop_client
  drop_client-tables c s =
      left (get_key ◌==◌ c.agent_id s.agent_to_tables)
        (record s { agent_connection_count = count_down c.agent_id s.agent_connection_count })
    where
      left : (o : Option (List Text)) (g : GameServerWs) → (leave_if c o g).tables ≡ g.tables
      left none g = refl
      left (some ids) g = ground arith

  handle_close-Keeps : (ws : ℕ) (s : GameServerWs) → Keeps P s (handle_close ws s)
  unfolding handle_close
  handle_close-Keeps ws s h = elim (Option-cases (get_client ws s)) [
    | inl unknown ↦ rw (unknown, handle_close, drop_if) h
    | inr (c, known) ↦
        rw (known, handle_close, drop_if)
          (subst (All P)
            (sym
              (drop_client-tables c (record s { open_sockets = without_socket ws s.open_sockets })))
            h)
  ]

  beat-Keeps : (cs : List ConnectedClient) (s : GameServerWs) → Keeps P s (beat cs s)
  unfolding beat
  beat-Keeps [] s h = h
  beat-Keeps (c ∷ cs) s h = elim (Bool-cases (includes c.ws s.pong_received)) [
    | inl alive ↦
        rw (alive, beat)
          (beat-Keeps cs (record s { pong_received = without_socket c.ws s.pong_received }) h)
    | inr dead ↦
        rw (dead, beat)
          (beat-Keeps cs (record s { open_sockets = without_socket c.ws s.open_sockets }) h)
  ]

  send_all-Keeps :
      (cs : List ConnectedClient) (msg : Message) (s : GameServerWs) → Keeps P s (send_all cs msg s)
  unfolding send_all
  send_all-Keeps [] msg s h = h
  send_all-Keeps (c ∷ cs) msg s h =
      send_all-Keeps cs msg (send c.ws msg s) (send-Keeps P c.ws msg s h)

  -- A change to a table that is there.
  changed-Keeps :
      (id : Text) (f : TableActor → TableActor) (s : GameServerWs)
      → ((t : TableActor) → P t → P (f t))
      → Keeps P s (seat_in id f (get_table id s) s)
  changed-Keeps id f s k h = elim (Option-cases (get_table id s)) [
    | inl missing ↦ rw (missing, seat_in) h
    | inr (t, found) ↦ rw (found, seat_in) (stored-Keeps P kept id t f s k found h)
  ]

  timed-Keeps :
      (id request : Text) (s : GameServerWs) → Keeps P s (time_out_at id request (get_table id s) s)
  timed-Keeps id request s h = elim (Option-cases (get_table id s)) [
    | inl missing ↦ rw (missing, time_out_at) h
    | inr (t, found) ↦
        rw (found, time_out_at)
          (elim (Bool-cases t.timer_running) [
            | inl runs ↦ simp runs (
                stored-Keeps P kept id t (λ u. (handle_timeout request u).0) s
                  (kept.times_out request) found h)
            | inr stopped ↦ simp stopped h
          ])
  ]

  step-Keeps : (e : Event) (s : GameServerWs) → Brings P e → Keeps P s (step e s)
  unfolding step register_table handle_connection announce_stop force_stop
  step-Keeps (registers t) s p h = put_table-All P t s.tables p h
  step-Keeps (joins id agent_id token buy_in) s p h =
      changed-Keeps id (λ t. (add_seat agent_id token buy_in t).0) s
        (kept.joins agent_id token buy_in) h
  step-Keeps (leaves id agent_id) s p h =
      changed-Keeps id (remove_seat agent_id) s (kept.leaves agent_id) h
  step-Keeps (connects now ws) s p h = ground (arith, h)
  step-Keeps (receives now check jwt ws bytes parsed) s p h =
      receive-Keeps now check jwt ws bytes parsed s h
  step-Keeps (pongs ws) s p h = h
  step-Keeps (closes ws) s p h = handle_close-Keeps ws s h
  step-Keeps beats s p h = beat-Keeps s.clients s h
  step-Keeps (starts_first id) s p h = elim (Bool-cases (any (text_eq id) s.auto_start_timers)) [
    | inr idle ↦ rw idle h
    | inl due ↦
        let fired = record s { auto_start_timers = drop_first id s.auto_start_timers } in
        rw due (try_start_hand-Keeps P kept id fired h)
  ]
  step-Keeps (starts_next id) s p h = elim (Bool-cases (any (text_eq id) s.next_hand_timers)) [
    | inr idle ↦ rw idle h
    | inl due ↦
        let fired = record s { next_hand_timers = drop_first id s.next_hand_timers } in
        rw due (try_start_hand-Keeps P kept id fired h)
  ]
  step-Keeps (times_out id request) s p h = timed-Keeps id request s h
  step-Keeps stops s p h = map-All P close s.tables kept.closes h
  step-Keeps (announces_stop grace_ms) s p h = send_all-Keeps s.clients _ s h
  step-Keeps forces_stop s p h = map-All P close s.tables kept.closes h

  -- X
  pub run-Keeps : (es : List Event) (s : GameServerWs) → All (Brings P) es → Keeps P s (run es s)
  unfolding run
  run-Keeps [] s p h = h
  run-Keeps (e ∷ es) s p h = run-Keeps es (step e s) p.1 (step-Keeps e s p.0 h)

abbrev pub IsSound : TableActor → Type 0
IsSound t = SeatsSound t.max_seats t.seats

called-IsSound : (a b : TableActor) → Served a b → IsSound a → IsSound b
called-IsSound a b served h =
    let (same, sound) = Served-Kept (refl, h) served in
    subst (λ m. SeatsSound m b.seats) (sym same) sound

renewed-SameSeats :
    (id token : ℕ) (seats : List SeatInfo)
    → SameSeats seats
        (update_by (of_agent id) (λ (seat : SeatInfo). record seat { seat_token = token }) seats)
renewed-SameSeats id token [] = (refl, refl)
renewed-SameSeats id token (s ∷ ss) =
    let later = renewed-SameSeats id token ss in ground (arith, later.0, later.1)

IsSound-IsKept : IsKept IsSound
IsSound-IsKept = record {
  starts = λ t. called-IsSound t (start_hand t).0 (Served.starts opens refl);
  acts = λ id action request seq t.
      called-IsSound t (process_action id action request seq t).0
        (acts id action request seq opens refl);
  times_out = λ request t.
      called-IsSound t (handle_timeout request t).0 (Served.times_out request opens refl);
  joins = λ id token buy_in t.
      called-IsSound t (add_seat id token buy_in t).0 (Served.joins id token buy_in opens refl);
  leaves = λ id t. called-IsSound t (remove_seat id t) (Served.leaves id opens refl);
  renews =
      λ id token t h. SeatsSound-same t.max_seats t.seats _ (renewed-SameSeats id token t.seats) h;
  closes = λ t. called-IsSound t (close t) (Served.closes opens refl);
}

-- If the tables that are registered have sound seats, then whatever happens at a server, from its
-- start, every table has: nobody sits twice, no seat is taken twice, taken seats lie within the
-- size, and no more agents sit than the size allows.
pub run-SeatsSound :
    (es : List Event) → All (Brings IsSound) es → All IsSound (run es new_server).tables
run-SeatsSound es brought = run-Keeps IsSound IsSound-IsKept es new_server brought tt
