-- ===== src/Server/RateLimiter/Runs.antt =====
-- apps/game-server/src/rate-limiter.ts: any calls, whose steps overlap.
use agent_poker.Base.{
  ℕ, zero, suc, ◌≡◌, ◌≤◌, List, [], ◌∷◌, get_or, set, some, All, true, inl, inr, Bool-cases,
  Option-cases, get_key, arith, subst, Values, set_key-Values,
}
use agent_poker.Base.Append.{All-append}
use agent_poker.Base.Laws.{some_inj}
use agent_poker.History.HashChain.{Text, text_eq}
use agent_poker.Server.RateLimiter.{
  Doubles, RateLimitConfig, RateLimiter, PendingCall, TokenBucket, try_consume, go_on, set_config,
  finish, full_bucket, with_held_bucket, held_bucket, next_of,
}
use agent_poker.Server.RateLimiter.Amounts.{
  AreDoubles, IsAmount, IsModest, IsSoundAt, IsWithin, latest, refilled-IsWithin, decide-IsSoundAt,
}

get_or-All :
    {A : Type 0} (P : A → Type 0) (xs : List A) (i : ℕ) (a : A) → P a → All P xs → P (get_or xs i a)
get_or-All P [] i a p h = p
get_or-All P (x ∷ xs) zero a p h = h.0
get_or-All P (x ∷ xs) (suc i) a p h = get_or-All P xs i a p h.1

set-All :
    {A : Type 0} (P : A → Type 0) (xs : List A) (i : ℕ) (a : A)
    → P a
    → All P xs
    → All P (set xs i a)
set-All P [] i a p h = tt
set-All P (x ∷ xs) zero a p h = (p, h.1)
set-All P (x ∷ xs) (suc i) a p h = (h.0, set-All P xs i a p h.1)

pub data Event (F : Type 0) : Type 0 where
  begins : ℕ → Text → F → Event F
  continues : ℕ → Event F
  configures : Text → RateLimitConfig F → Event F

module _ {F : Type 0} (d : Doubles F) where
  abbrev pub step : Event F → RateLimiter F → RateLimiter F
  step (begins agent_id type tokens) r = (try_consume agent_id type tokens r).0
  step (continues now) r = (go_on d now r).0
  step (configures type config) r = set_config type config r

  unfoldable pub run : List (Event F) → RateLimiter F → RateLimiter F
  run [] r = r
  run (e ∷ es) r = run es (step e r)

  -- Calls for amounts, in any order of their steps; the clock does not go back, and configs keep
  -- to the bound.
  abbrev pub AreTimely : F → F → ℕ → List (Event F) → Type 0
  AreTimely greatest bound from [] = Unit
  AreTimely greatest bound from (begins agent_id type tokens ∷ es) =
      IsAmount d greatest tokens × AreTimely greatest bound from es
  AreTimely greatest bound from (continues now ∷ es) =
      (from ≤ now) × (now ≤ latest) × AreTimely greatest bound now es
  AreTimely greatest bound from (configures type config ∷ es) =
      IsModest d greatest bound config × AreTimely greatest bound from es

  module _ (greatest bound : F) where
    abbrev IsModestCall : PendingCall F → Type 0
    IsModestCall c = IsModest d greatest bound c.config × IsAmount d greatest c.needed

    record IsSound (now : ℕ) (r : RateLimiter F) : Type 0 where
      buckets : All (IsSoundAt d greatest bound now) r.objects
      configured : Values text_eq (IsModest d greatest bound) r.configs
      asked : All IsModestCall r.waiting

    later-All :
        (from now : ℕ) (bs : List (TokenBucket F))
        → from ≤ now
        → All (IsSoundAt d greatest bound from) bs
        → All (IsSoundAt d greatest bound now) bs
    later-All from now [] h k = tt
    later-All from now (b ∷ bs) h k =
        let own = k.0 in
        (
          record { within = own.within; past = omega (arith, own.past) },
          later-All from now bs h k.1,
        )

    get_key-Values :
        (type : Text) (m : List (Text × RateLimitConfig F)) (config : RateLimitConfig F)
        → Values text_eq (IsModest d greatest bound) m
        → get_key text_eq type m ≡ some config
        → IsModest d greatest bound config
    get_key-Values type [] config h e = cc
    get_key-Values type ((k, c) ∷ m) config h e = elim (Bool-cases (text_eq k type)) [
      | inl here ↦ subst (IsModest d greatest bound) (some_inj (rw here at e)) h.0
      | inr later ↦ get_key-Values type m config h.1 (rw later at e)
    ]

    begins-IsSound :
        (agent_id : ℕ) (type : Text) (tokens : F) (now : ℕ) (r : RateLimiter F)
        → IsAmount d greatest tokens
        → IsSound now r
        → IsSound now (try_consume agent_id type tokens r).0
    unfolding try_consume
    begins-IsSound agent_id type tokens now r n h =
        elim (Option-cases (get_key text_eq type r.configs)) [
          | inl free ↦ rw free h
          | inr (config, known) ↦ rw known (record {
            buckets = h.buckets;
            configured = h.configured;
            asked =
                All-append IsModestCall r.waiting _ h.asked
                  ((get_key-Values type r.configs config h.configured known, n), tt);
          })
        ]

    module _ (laws : AreDoubles d greatest) (finite : d.ge greatest bound ≡ true) where
      with_held_bucket-IsSoundAt :
          (c : PendingCall F) (now : ℕ) (r : RateLimiter F)
          → IsModestCall c
          → All (IsSoundAt d greatest bound now) r.objects
          → All (IsSoundAt d greatest bound now) (with_held_bucket d c now r)
      with_held_bucket-IsSoundAt c now r h k = elim (Option-cases c.found) [
        | inl new ↦ rw new (
            All-append (IsSoundAt d greatest bound now) r.objects _ k
              (record { within = h.0.most; past = omega arith }, tt))
        | inr (ref, known) ↦ rw known k
      ]

      finish-IsSound :
          (c : PendingCall F) (now : ℕ) (r : RateLimiter F)
          → IsModestCall c
          → now ≤ latest
          → IsSound now r
          → IsSound now (finish d c now r)
      finish-IsSound c now r asks l h =
          let sound = with_held_bucket-IsSoundAt c now r asks h.buckets in
          let fresh : IsSoundAt d greatest bound now (full_bucket d c.config now) = record {
            within = asks.0.most;
            past = omega arith;
          } in
          let own =
            get_or-All (IsSoundAt d greatest bound now) (with_held_bucket d c now r)
              (held_bucket d c r) (full_bucket d c.config now) fresh sound in
          let filled = refilled-IsWithin d greatest laws bound finite c.config now _ asks.0 own l in
          let after =
            decide-IsSoundAt d greatest laws bound finite c.config c.needed now _ asks.1 filled in
          record {
            buckets =
                set-All (IsSoundAt d greatest bound now) (with_held_bucket d c now r)
                  (held_bucket d c r) _ after sound;
            configured = h.configured;
            asked = h.asked;
          }

      next_of-IsSound :
          (calls : List (PendingCall F)) (now : ℕ) (r : RateLimiter F)
          → All IsModestCall calls
          → now ≤ latest
          → IsSound now r
          → IsSound now (next_of d calls now r).0
      next_of-IsSound [] now r asked l h = h
      next_of-IsSound (c ∷ cs) now r asked l h =
          finish-IsSound c now (record r { waiting = cs }) asked.0 l
            (record { buckets = h.buckets; configured = h.configured; asked = asked.1 })

      run-IsSound :
          (es : List (Event F)) (from : ℕ) (r : RateLimiter F)
          → AreTimely greatest bound from es
          → IsSound from r
          → (now : ℕ) × IsSound now (run es r)
      unfolding run go_on
      run-IsSound [] from r o h = (from, h)
      run-IsSound (begins agent_id type tokens ∷ es) from r o h =
          run-IsSound es from _ o.1 (begins-IsSound agent_id type tokens from r o.0 h)
      run-IsSound (continues now ∷ es) from r o h =
          let later : IsSound now r = record {
            buckets = later-All from now r.objects o.0 h.buckets;
            configured = h.configured;
            asked = h.asked;
          } in
          run-IsSound es now _ o.2 (next_of-IsSound r.waiting now r later.asked o.1 later)
      run-IsSound (configures type config ∷ es) from r o h = run-IsSound es from _ o.1 (record {
        buckets = h.buckets;
        configured =
            set_key-Values text_eq (IsModest d greatest bound) type config r.configs o.0
              h.configured;
        asked = h.asked;
      })

      All-IsWithin :
          (now : ℕ) (bs : List (TokenBucket F))
          → All (IsSoundAt d greatest bound now) bs
          → All (λ b. IsWithin d greatest bound b.tokens) bs
      All-IsWithin now [] h = tt
      All-IsWithin now (b ∷ bs) h = (h.0.within, All-IsWithin now bs h.1)

-- If doubles keep to the laws of order and sign that finite amounts obey, configs have a rate that
-- is finite and not below zero and a most number of tokens between zero and a finite bound, and a
-- limiter has neither buckets nor waiting calls, then after any calls for amounts that are finite
-- and not below zero, however their steps overlap, and any new configs of the same kind, while the
-- clock does not go back, every bucket holds between zero tokens and the bound.
pub run-IsWithin :
    {F : Type 0} (d : Doubles F) (greatest bound : F) (es : List (Event F)) (from : ℕ)
    (r : RateLimiter F)
    → AreDoubles d greatest
    → d.ge greatest bound ≡ true
    → r.objects ≡ []
    → r.waiting ≡ []
    → Values text_eq (IsModest d greatest bound) r.configs
    → AreTimely d greatest bound from es
    → All (λ b. IsWithin d greatest bound b.tokens) (run d es r).objects
run-IsWithin d greatest bound es from r laws finite none_yet idle configs o =
    let start : IsSound d greatest bound from r = record {
      buckets = rw none_yet tt;
      configured = configs;
      asked = rw idle tt;
    } in
    let (now, h) = run-IsSound d greatest bound laws finite es from r o start in
    All-IsWithin d greatest bound laws finite now (run d es r).objects h.buckets
