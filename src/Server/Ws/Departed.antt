-- ===== src/Server/Ws/Departed.antt =====
-- apps/game-server/src/ws-handler.ts: a client who leaves is counted no more.
use agent_poker.Base.{
  ℕ, ◌+◌, ◌-◌, ◌≤◌, ◌≡◌, refl, sym, ap, subst, List, [], ◌∷◌, filter_by, find_by, length, Option,
  none, some, Bool, false, not, ◌==◌, ==_refl, ==_iff, leb, if◌then◌else◌, inl, inr, Bool-cases,
  Option-cases, arith, get_key, get_key-set_key, get_key-delete_key, number_IsKey,
}
use agent_poker.Base.Laws.{some_inj}
use agent_poker.History.HashChain.{Text, text_eq}
use agent_poker.Server.Ws.{GameServerWs, ConnectedClient, get_client, is_client, tables_or_none}
use agent_poker.Server.Ws.Hello.{or_zero}
use agent_poker.Server.Ws.Frames.{Registry, registry}
use agent_poker.Server.Ws.Server.{drop_client, count_down, leave_table, leave_if, is_no_table}
use agent_poker.Server.Ws.Limits.{IsLimited, live}

live-drop :
    (id ws : ℕ) (cs : List ConnectedClient)
    → live id (filter_by (λ d. not (is_client ws d)) cs) ≤ live id cs
live-drop id ws [] = omega arith
live-drop id ws (c ∷ cs) = ground (arith, live-drop id ws cs)

-- The client that leaves is no longer among them.
live-dropped :
    (ws : ℕ) (cs : List ConnectedClient) {c : ConnectedClient}
    → find_by (is_client ws) cs ≡ some c
    → live c.agent_id (filter_by (λ d. not (is_client ws d)) cs) + 1 ≤ live c.agent_id cs
live-dropped ws [] e = cc
live-dropped ws (d ∷ ds) {c} e = elim (Bool-cases (d.ws == ws)) [
  | inl here ↦
      let same : d ≡ c = some_inj (rw here at e) in
      let mine = ap (λ (x : ConnectedClient). x.agent_id) same in
      rw (here, mine, ==_refl c.agent_id) (omega (arith, live-drop c.agent_id ws ds))
  | inr later ↦ rw later (ground (arith, live-dropped ws ds (rw later at e)))
]

-- The count of an agent, one less.
count_down-lem :
    (id : ℕ) (counts : List (ℕ × ℕ))
    → or_zero (get_key ◌==◌ id (count_down id counts)) ≡ or_zero (get_key ◌==◌ id counts) - 1
count_down-lem id counts = elim (Option-cases (get_key ◌==◌ id counts)) [
  | inl missing ↦
      rw (missing, count_down, get_key-delete_key ◌==◌ number_IsKey id id, ==_refl id) refl
  | inr (n, e) ↦ elim (Bool-cases (leb n 1)) [
    | inl one ↦
        rw (e, one, count_down, get_key-delete_key ◌==◌ number_IsKey id id, ==_refl id)
          (ground arith)
    | inr more ↦ rw (e, more, count_down, get_key-set_key ◌==◌ number_IsKey id id, ==_refl id) refl
  ]
]

count_down-other :
    (id agent : ℕ) (counts : List (ℕ × ℕ))
    → (agent == id) ≡ false
    → get_key ◌==◌ id (count_down agent counts) ≡ get_key ◌==◌ id counts
count_down-other id agent counts d = elim (Option-cases (get_key ◌==◌ agent counts)) [
  | inl missing ↦ rw (missing, count_down, get_key-delete_key ◌==◌ number_IsKey id agent, d) refl
  | inr (n, e) ↦ elim (Bool-cases (leb n 1)) [
    | inl one ↦ rw (e, one, count_down, get_key-delete_key ◌==◌ number_IsKey id agent, d) refl
    | inr more ↦ rw (e, more, count_down, get_key-set_key ◌==◌ number_IsKey id agent, d) refl
  ]
]

length-filter_by : (p : Text → Bool) (ids : List Text) → length (filter_by p ids) ≤ length ids
length-filter_by p [] = omega arith
length-filter_by p (id ∷ ids) = ground (arith, length-filter_by p ids)

abbrev tables_at : ℕ → GameServerWs → ℕ
tables_at id s = length (tables_or_none (get_key ◌==◌ id s.agent_to_tables))

-- A new value for one key that is no longer than the one it had.
fewer_at :
    (key id : ℕ) (o : Option (List Text)) (m : List (ℕ × List Text))
    → length (tables_or_none o) ≤ length (tables_or_none (get_key ◌==◌ key m))
    → length (tables_or_none (if key == id then o else get_key ◌==◌ id m))
      ≤ length (tables_or_none (get_key ◌==◌ id m))
fewer_at key id o m h = elim (Bool-cases (key == id)) [
  | inl own ↦ rw own (
      subst (λ k. length (tables_or_none o) ≤ length (tables_or_none (get_key ◌==◌ k m)))
        ((==_iff key id).0 own) h)
  | inr away ↦ rw away (omega arith)
]

leave_table-le :
    (id : ℕ) (c : ConnectedClient) (ids : List Text) (s : GameServerWs)
    → get_key ◌==◌ c.agent_id s.agent_to_tables ≡ some ids
    → tables_at id (leave_table c ids s) ≤ tables_at id s
leave_table-le id c ids s e =
    let p : Text → Bool = λ i. not (text_eq i c.table_id) in
    elim (Bool-cases (is_no_table (filter_by p ids))) [
      | inl empty ↦
          rw (empty, get_key-delete_key ◌==◌ number_IsKey id c.agent_id)
            (fewer_at c.agent_id id none s.agent_to_tables (omega arith))
      | inr some_left ↦
          rw (some_left, get_key-set_key ◌==◌ number_IsKey id c.agent_id)
            (fewer_at c.agent_id id (some (filter_by p ids)) s.agent_to_tables
              (rw e (length-filter_by p ids)))
    ]

leave_if-le :
    (id : ℕ) (c : ConnectedClient) (s : GameServerWs)
    → tables_at id (leave_if c (get_key ◌==◌ c.agent_id s.agent_to_tables) s) ≤ tables_at id s
leave_if-le id c s = elim (Option-cases (get_key ◌==◌ c.agent_id s.agent_to_tables)) [
  | inl none_there ↦ rw (none_there, leave_if) (omega arith)
  | inr (ids, e) ↦ rw (e, leave_if) (leave_table-le id c ids s e)
]

leave_if-kept :
    (c : ConnectedClient) (o : Option (List Text)) (s : GameServerWs)
    → ((leave_if c o s).clients ≡ s.clients)
      × ((leave_if c o s).agent_connection_count ≡ s.agent_connection_count)
leave_if-kept c none s = (refl, refl)
leave_if-kept c (some ids) s = ground arith

module _ (c : ConnectedClient) (s : GameServerWs) where
  abbrev dropped : Registry
  dropped = (
    filter_by (λ d. not (is_client c.ws d)) s.clients,
    count_down c.agent_id s.agent_connection_count,
    (drop_client c s).agent_to_tables,
  )

  drop_client-registry : registry (drop_client c s) ≡ dropped
  unfolding drop_client
  drop_client-registry =
      let counts = count_down c.agent_id s.agent_connection_count in
      let (same_clients, same_counts) =
        leave_if-kept c (get_key ◌==◌ c.agent_id s.agent_to_tables)
          (record s { agent_connection_count = counts }) in
      rw (same_clients, same_counts) refl

  drop_client-le : (id : ℕ) → tables_at id (drop_client c s) ≤ tables_at id s
  unfolding drop_client
  drop_client-le id =
      leave_if-le id c
        (record s { agent_connection_count = count_down c.agent_id s.agent_connection_count })

  drop_own :
      get_client c.ws s ≡ some c → IsLimited c.agent_id (registry s) → IsLimited c.agent_id dropped
  drop_own known h = record {
    counted = omega (
      arith,
      count_down-lem c.agent_id s.agent_connection_count,
      live-dropped c.ws s.clients known,
      h.counted,
    );
    few = omega (arith, count_down-lem c.agent_id s.agent_connection_count, h.few);
    fits = omega (arith, drop_client-le c.agent_id, h.fits);
  }

  drop_another :
      (id : ℕ) → (c.agent_id == id) ≡ false → IsLimited id (registry s) → IsLimited id dropped
  drop_another id differs h =
      let same = ap or_zero (count_down-other id c.agent_id s.agent_connection_count differs) in
      record {
        counted = omega (arith, same, live-drop id c.ws s.clients, h.counted);
        few = omega (arith, same, h.few);
        fits = omega (arith, drop_client-le id, h.fits);
      }

  pub drop_client-IsLimited :
      (id : ℕ)
      → get_client c.ws s ≡ some c
      → IsLimited id (registry s)
      → IsLimited id (registry (drop_client c s))
  drop_client-IsLimited id known h = rw drop_client-registry (elim (Bool-cases (c.agent_id == id)) [
    | inr differs ↦ drop_another id differs h
    | inl own ↦
        let e = (==_iff c.agent_id id).0 own in
        subst (λ k. IsLimited k dropped) e
          (drop_own known (subst (λ k. IsLimited k (registry s)) (sym e) h))
  ])
