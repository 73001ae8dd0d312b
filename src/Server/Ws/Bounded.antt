-- ===== src/Server/Ws/Bounded.antt =====
-- apps/game-server/src/ws-handler.ts: the limits of an agent, whatever happens. The list of an
-- agent's tables can lack tables that it is connected to.
use agent_poker.Base.{
  ℕ, ◌≤◌, ◌≡◌, refl, sym, ◌∙◌, subst, List, [], ◌∷◌, find_by, update_by, length, includes, any,
  Option, none, some, Bool, not, ◌==◌, ==_iff, ltb, inl, inr, Bool-cases, Option-cases, arith,
  get_key, set_key,
}
use agent_poker.Base.Laws.{find_by-some}
use agent_poker.History.HashChain.{Text, text_eq}
use agent_poker.Server.RateLimiter.{RateCheck}
use agent_poker.Server.SeatToken.{Jwt, refresh_seat_token}
use agent_poker.Server.Table.{TableActor, add_seat, remove_seat}
use agent_poker.Server.Ws.{
  GameServerWs, ConnectedClient, Message, error_message, token_refreshed, pong, shutdown,
  auth_failed, internal, invalid_message, rate_limited, protocol_mismatch, unknown_message_type,
  get_client, get_agent_tables, get_table, is_client, new_server, register_table, send,
}
use agent_poker.Server.Ws.Hello.{
  WsEnvelope, handle_hello, MessageType, hello, action, ping, refresh_token, other,
}
use agent_poker.Server.Ws.Admits.{handle_hello-admits}
use agent_poker.Server.Ws.Frames.{
  Registry, registry, send-registry, handle_action-registry, try_start_hand-registry,
}
use agent_poker.Server.Ws.Limits.{IsLimited, live, register-IsLimited}
use agent_poker.Server.Ws.Departed.{drop_client-IsLimited}
use agent_poker.Server.Ws.Play.{handle_refresh_token, renew}
use agent_poker.Server.Ws.Server.{
  Event, registers, joins, leaves, seat_in, connects, receives, pongs, closes, beats, starts_first,
  starts_next, times_out, stops, announces_stop, forces_stop, Parsed, not_json, not_envelope,
  envelope, run, step, dispatch, handle_message, handle_parsed, receive, handle_connection,
  handle_close, beat, send_all, announce_stop, force_stop, time_out_at, drop_if, protocol_version,
  max_message_size, drop_first, bytes_per_second_limit, count_bytes, bandwidth_or_new,
  without_socket,
}

module _ (id : ℕ) where
  -- The limits are on the registry alone.
  Limited-by : {r q : Registry} → q ≡ r → IsLimited id r → IsLimited id q
  Limited-by e h = subst (IsLimited id) (sym e) h

  live-renewed :
      (p : ConnectedClient → Bool) (token : ℕ) (cs : List ConnectedClient)
      → live id (update_by p (λ client. record client { seat_token = token }) cs) ≡ live id cs
  live-renewed p token [] = refl
  live-renewed p token (c ∷ cs) = ground (arith, live-renewed p token cs)

  renew-IsLimited :
      (ws : ℕ) (c : ConnectedClient) (token : ℕ) (s : GameServerWs)
      → IsLimited id (registry s)
      → IsLimited id (registry (renew ws c token s))
  unfolding renew
  renew-IsLimited ws c token s h = record {
    counted = rw (live-renewed (is_client ws) token s.clients) h.counted;
    few = h.few;
    fits = h.fits;
  }

  handle_refresh_token-IsLimited :
      (jwt : Jwt) (ws : ℕ) (s : GameServerWs)
      → IsLimited id (registry s)
      → IsLimited id (registry (handle_refresh_token jwt ws s))
  unfolding handle_refresh_token
  handle_refresh_token-IsLimited jwt ws s h = elim (Option-cases (get_client ws s)) [
    | inl unknown ↦
        rw (unknown, handle_refresh_token)
          (Limited-by (send-registry ws (error_message auth_failed none) s) h)
    | inr (c, known) ↦ elim (Option-cases (refresh_seat_token jwt c.seat_token none)) [
      | inl old ↦
          rw (known, old, handle_refresh_token)
            (Limited-by (send-registry ws (error_message auth_failed none) s) h)
      | inr (token, new) ↦
          rw (known, new, handle_refresh_token)
            (Limited-by (send-registry ws (token_refreshed token) (renew ws c token s))
              (renew-IsLimited ws c token s h))
    ]
  ]

  handle_hello-IsLimited :
      (jwt : Jwt) (ws : ℕ) (msg : WsEnvelope) (s : GameServerWs)
      → IsLimited id (registry s)
      → IsLimited id (registry (handle_hello jwt ws msg s).0)
  handle_hello-IsLimited jwt ws msg s h = elim (handle_hello-admits jwt ws msg s) [
    | inl (code, e) ↦ rw e (Limited-by (send-registry ws (error_message code none) s) h)
    | inr (a, admitted, e) ↦ rw e (register-IsLimited {jwt = jwt} {msg = msg} id ws a s admitted h)
  ]

  dispatch-IsLimited :
      (type : MessageType) (check : RateCheck) (jwt : Jwt) (ws : ℕ) (msg : WsEnvelope)
      (s : GameServerWs)
      → IsLimited id (registry s)
      → IsLimited id (registry (dispatch type check jwt ws msg s).0)
  unfolding dispatch
  dispatch-IsLimited hello check jwt ws msg s h = handle_hello-IsLimited jwt ws msg s h
  dispatch-IsLimited action check jwt ws msg s h =
      Limited-by (handle_action-registry check ws msg s) h
  dispatch-IsLimited ping check jwt ws msg s h = Limited-by (send-registry ws pong s) h
  dispatch-IsLimited refresh_token check jwt ws msg s h = handle_refresh_token-IsLimited jwt ws s h
  dispatch-IsLimited other check jwt ws msg s h =
      Limited-by (send-registry ws (error_message unknown_message_type none) s) h

  handle_parsed-IsLimited :
      (check : RateCheck) (jwt : Jwt) (ws : ℕ) (parsed : Parsed) (s : GameServerWs)
      → IsLimited id (registry s)
      → IsLimited id (registry (handle_parsed check jwt ws parsed s).0)
  unfolding handle_parsed handle_message
  handle_parsed-IsLimited check jwt ws not_json s h =
      Limited-by (send-registry ws (error_message internal none) s) h
  handle_parsed-IsLimited check jwt ws not_envelope s h =
      Limited-by (send-registry ws (error_message invalid_message none) s) h
  handle_parsed-IsLimited check jwt ws (envelope msg) s h =
      elim (Bool-cases (not (msg.protocol_version == protocol_version))) [
        | inl old ↦
            rw (old, handle_message)
              (Limited-by (send-registry ws (error_message protocol_mismatch none) s) h)
        | inr same ↦ rw (same, handle_message) (dispatch-IsLimited msg.type check jwt ws msg s h)
      ]

  receive-IsLimited :
      (now : ℕ) (check : RateCheck) (jwt : Jwt) (ws bytes : ℕ) (parsed : Parsed) (s : GameServerWs)
      → IsLimited id (registry s)
      → IsLimited id (registry (receive now check jwt ws bytes parsed s).0)
  unfolding receive
  receive-IsLimited now check jwt ws bytes parsed s h =
      let b = count_bytes now bytes (bandwidth_or_new now (get_key ◌==◌ ws s.bandwidths)) in
      let noted = record s { bandwidths = set_key ◌==◌ ws b s.bandwidths } in
      elim (Bool-cases (ltb bytes_per_second_limit b.bytes_this_second)) [
        | inl fast ↦
            rw (fast, receive)
              (Limited-by (send-registry ws (error_message rate_limited none) noted) h)
        | inr slow ↦ elim (Bool-cases (ltb max_message_size bytes)) [
          | inl long ↦
              rw (slow, long, receive)
                (Limited-by (send-registry ws (error_message invalid_message none) noted) h)
          | inr short ↦
              rw (slow, short, receive) (handle_parsed-IsLimited check jwt ws parsed noted h)
        ]
      ]

  handle_close-IsLimited :
      (ws : ℕ) (s : GameServerWs)
      → IsLimited id (registry s)
      → IsLimited id (registry (handle_close ws s))
  unfolding handle_close
  handle_close-IsLimited ws s h = elim (Option-cases (get_client ws s)) [
    | inl unknown ↦ rw (unknown, handle_close, drop_if) h
    | inr (c, known) ↦
        let own = (==_iff c.ws ws).0 ((find_by-some (is_client ws) s.clients known)) in
        rw (known, handle_close, drop_if)
          (drop_client-IsLimited c (record s { open_sockets = without_socket ws s.open_sockets }) id
            (subst (λ k. find_by (is_client k) s.clients ≡ some c) (sym own) known) h)
  ]

beat-registry : (cs : List ConnectedClient) (s : GameServerWs) → registry (beat cs s) ≡ registry s
unfolding beat
beat-registry [] s = refl
beat-registry (c ∷ cs) s = elim (Bool-cases (includes c.ws s.pong_received)) [
  | inl alive ↦
      rw (alive, beat)
        (beat-registry cs (record s { pong_received = without_socket c.ws s.pong_received }))
  | inr dead ↦
      rw (dead, beat)
        (beat-registry cs (record s { open_sockets = without_socket c.ws s.open_sockets }))
]

send_all-registry :
    (cs : List ConnectedClient) (msg : Message) (s : GameServerWs)
    → registry (send_all cs msg s) ≡ registry s
unfolding send_all
send_all-registry [] msg s = refl
send_all-registry (c ∷ cs) msg s =
    send_all-registry cs msg (send c.ws msg s) ∙ send-registry c.ws msg s

time_out_at-registry :
    (id request : Text) (o : Option TableActor) (s : GameServerWs)
    → registry (time_out_at id request o s) ≡ registry s
time_out_at-registry id request none s = refl
time_out_at-registry id request (some t) s = elim (Bool-cases t.timer_running) [
  | inl runs ↦ rw runs refl
  | inr stopped ↦ rw stopped refl
]

seat_in-registry :
    (id : Text) (change : TableActor → TableActor) (o : Option TableActor) (s : GameServerWs)
    → registry (seat_in id change o s) ≡ registry s
seat_in-registry id change none s = refl
seat_in-registry id change (some t) s = refl

step-IsLimited :
    (id : ℕ) (e : Event) (s : GameServerWs)
    → IsLimited id (registry s)
    → IsLimited id (registry (step e s))
unfolding step register_table handle_connection announce_stop force_stop
step-IsLimited id (registers t) s h = h
step-IsLimited id (joins table agent_id token buy_in) s h =
    Limited-by id
      (seat_in-registry table (λ t. (add_seat agent_id token buy_in t).0) (get_table table s) s) h
step-IsLimited id (leaves table agent_id) s h =
    Limited-by id (seat_in-registry table (remove_seat agent_id) (get_table table s) s) h
step-IsLimited id (connects now ws) s h = ground (arith, h)
step-IsLimited id (receives now check jwt ws bytes parsed) s h =
    receive-IsLimited id now check jwt ws bytes parsed s h
step-IsLimited id (pongs ws) s h = h
step-IsLimited id (closes ws) s h = handle_close-IsLimited id ws s h
step-IsLimited id beats s h = Limited-by id (beat-registry s.clients s) h
step-IsLimited id (starts_first table) s h =
    elim (Bool-cases (any (text_eq table) s.auto_start_timers)) [
      | inr idle ↦ rw idle h
      | inl due ↦
          let fired = record s { auto_start_timers = drop_first table s.auto_start_timers } in
          rw due (Limited-by id (try_start_hand-registry table fired) h)
    ]
step-IsLimited id (starts_next table) s h =
    elim (Bool-cases (any (text_eq table) s.next_hand_timers)) [
      | inr idle ↦ rw idle h
      | inl due ↦
          let fired = record s { next_hand_timers = drop_first table s.next_hand_timers } in
          rw due (Limited-by id (try_start_hand-registry table fired) h)
    ]
step-IsLimited id (times_out table request) s h =
    Limited-by id (time_out_at-registry table request (get_table table s) s) h
step-IsLimited id stops s h = h
step-IsLimited id (announces_stop grace_ms) s h =
    Limited-by id (send_all-registry s.clients (shutdown grace_ms) s) h
step-IsLimited id forces_stop s h = h

run-IsLimited :
    (id : ℕ) (es : List Event) (s : GameServerWs)
    → IsLimited id (registry s)
    → IsLimited id (registry (run es s))
unfolding run
run-IsLimited id [] s h = h
run-IsLimited id (e ∷ es) s h = run-IsLimited id es (step e s) (step-IsLimited id e s h)

-- Whatever happens at a server, from its start, an agent never has more than ten registered
-- connections, and the list of tables that the server keeps for it never has more than eight
-- entries.
pub run-limits :
    (id : ℕ) (es : List Event)
    → (live id (run es new_server).clients ≤ 10)
      × (length (get_agent_tables id (run es new_server)) ≤ 8)
run-limits id es =
    let h = run-IsLimited id es new_server (omega arith) in
    (omega (arith, h.counted, h.few), h.fits)
