-- ===== src/Server/RateLimiter.antt =====
-- apps/game-server/src/rate-limiter.ts, with the store in memory. The arithmetic of doubles is the
-- parameter `Doubles`. A call waits for the store once, after it has read the agent's bucket:
-- `try_consume` is what it does before, `go_on` what it does after, at the time that the clock then
-- shows, in milliseconds. Between the two other calls may run; the store answers in the order of
-- the calls. A bucket is an object that calls share: it is named by its index in `objects`, and the
-- store maps an agent with a type to such a name (no type has a colon, so that the pair is as good
-- as the text that joins them). That a call writes the bucket back is part of
-- `go_on`, since `InMemoryStore.set` writes before its promise is awaited.
pub mod Amounts
pub mod Burst
pub mod Runs
use agent_poker.Base.{
  ℕ, ◌≡◌, ◌⊎◌, inl, inr, refl, List, [], ◌∷◌, ◌++◌, length, get_or, set, Option, none, some, Bool,
  ◌==◌, if◌then◌else◌, get_key, set_key, both,
}
use agent_poker.History.HashChain.{Text, text_eq}

-- The operations `+`, `-`, `*`, `/`, `Math.min` and `>=` on doubles, the double of a whole number,
-- and `Math.ceil` as the whole number that it is (`none` for infinities, NaN and below zero).
pub record Doubles (F : Type 0) : Type 0 where
  pub of_ℕ : ℕ → F
  pub plus : F → F → F
  pub minus : F → F → F
  pub times : F → F → F
  pub over : F → F → F
  pub least : F → F → F
  pub ge : F → F → Bool
  pub ceil : F → Option ℕ

pub record TokenBucket (F : Type 0) : Type 0 where
  pub tokens : F
  pub last_refill : ℕ

pub record RateLimitConfig (F : Type 0) : Type 0 where
  pub max_tokens : F
  pub refill_rate : F

abbrev pub BucketKey : Type 0
BucketKey = ℕ × Text

abbrev pub bucket_key_eq : BucketKey → BucketKey → Bool
bucket_key_eq = both ◌==◌ text_eq

-- A call that waits for the store, with what it has read.
pub record PendingCall (F : Type 0) : Type 0 where
  pub key : BucketKey
  pub needed : F
  pub config : RateLimitConfig F
  pub found : Option ℕ

pub record RateLimiter (F : Type 0) : Type 0 where
  pub objects : List (TokenBucket F)
  pub store : List (BucketKey × ℕ)
  pub configs : List (Text × RateLimitConfig F)
  pub waiting : List (PendingCall F)

abbrev pub action_type : Text
action_type = b'a' ∷ b'c' ∷ b't' ∷ b'i' ∷ b'o' ∷ b'n' ∷ []

abbrev join_type : Text
join_type = b'j' ∷ b'o' ∷ b'i' ∷ b'n' ∷ []

-- `retryAfterMs` is the wait.
pub data RateCheck : Type 0 where
  allowed : RateCheck
  refused : Option ℕ → RateCheck

pub RateCheck-cases : (c : RateCheck) → (c ≡ allowed) ⊎ ((wait : Option ℕ) × (c ≡ refused wait))
RateCheck-cases allowed = inl refl
RateCheck-cases (refused wait) = inr (wait, refl)

abbrev pub set_config : {F : Type 0} → Text → RateLimitConfig F → RateLimiter F → RateLimiter F
set_config type config r = record r { configs = set_key text_eq type config r.configs }

-- Up to the first `await`: without a config the call is answered at once.
abbrev begin :
    {F : Type 0}
    → Option (RateLimitConfig F)
    → BucketKey
    → F
    → RateLimiter F
    → RateLimiter F × Option RateCheck
begin none key tokens r = (r, some allowed)
begin (some config) key tokens r = (
  record r {
    waiting =
        r.waiting
        ++ record {
          key = key;
          needed = tokens;
          config = config;
          found = get_key bucket_key_eq key r.store;
        }
          ∷ [];
  },
  none,
)

unfoldable pub try_consume :
    {F : Type 0} → ℕ → Text → F → RateLimiter F → RateLimiter F × Option RateCheck
try_consume agent_id type tokens r =
    begin (get_key text_eq type r.configs) (agent_id, type) tokens r

module _ {F : Type 0} (d : Doubles F) where
  -- 10 actions a second and 5 joins a minute.
  abbrev pub new_limiter : RateLimiter F
  new_limiter = record {
    objects = [];
    store = [];
    configs =
        (action_type, record { max_tokens = d.of_ℕ 10; refill_rate = d.of_ℕ 10 })
        ∷ (join_type, record { max_tokens = d.of_ℕ 5; refill_rate = d.over (d.of_ℕ 5) (d.of_ℕ 60) })
        ∷ [];
    waiting = [];
  }

  abbrev pub full_bucket : RateLimitConfig F → ℕ → TokenBucket F
  full_bucket config now = record { tokens = config.max_tokens; last_refill = now }

  abbrev pub tokens_to_add : RateLimitConfig F → ℕ → TokenBucket F → F
  tokens_to_add config now b =
      let elapsed_ms = d.minus (d.of_ℕ now) (d.of_ℕ b.last_refill) in
      d.times (d.over elapsed_ms (d.of_ℕ 1000)) config.refill_rate

  unfoldable pub refilled : RateLimitConfig F → ℕ → TokenBucket F → F
  refilled config now b = d.least config.max_tokens (d.plus b.tokens (tokens_to_add config now b))

  abbrev pub retry_after_ms : RateLimitConfig F → F → F → Option ℕ
  retry_after_ms config tokens filled =
      d.ceil (d.times (d.over (d.minus tokens filled) config.refill_rate) (d.of_ℕ 1000))

  -- The decision, once the tokens are refilled.
  abbrev pub decide : RateLimitConfig F → F → ℕ → F → TokenBucket F × RateCheck
  decide config tokens now filled =
      if d.ge filled tokens
      then (record { tokens = d.minus filled tokens; last_refill = now }, allowed)
      else (
        record { tokens = filled; last_refill = now },
        refused (retry_after_ms config tokens filled),
      )

  -- The object that a call works on, which it makes if it has read none.
  abbrev pub held_bucket : PendingCall F → RateLimiter F → ℕ
  held_bucket c r = elim (c.found) [ none ↦ length r.objects | some ref ↦ ref ]

  abbrev pub with_held_bucket : PendingCall F → ℕ → RateLimiter F → List (TokenBucket F)
  with_held_bucket c now r = elim (c.found) [
    | none ↦ r.objects ++ full_bucket c.config now ∷ []
    | some ref ↦ r.objects
  ]

  -- A name that is held is one of an object, so the value for others is not used.
  abbrev pub outcome : PendingCall F → ℕ → RateLimiter F → TokenBucket F × RateCheck
  outcome c now r =
      let b = get_or (with_held_bucket c now r) (held_bucket c r) (full_bucket c.config now) in
      decide c.config c.needed now (refilled c.config now b)

  abbrev pub finish : PendingCall F → ℕ → RateLimiter F → RateLimiter F
  finish c now r = record r {
    objects = set (with_held_bucket c now r) (held_bucket c r) (outcome c now r).0;
    store = set_key bucket_key_eq c.key (held_bucket c r) r.store;
  }

  -- The call that has waited longest goes on.
  abbrev pub next_of : List (PendingCall F) → ℕ → RateLimiter F → RateLimiter F × Option RateCheck
  next_of [] now r = (r, none)
  next_of (c ∷ cs) now r =
      (finish c now (record r { waiting = cs }), some (outcome c now (record r { waiting = cs })).1)

  unfoldable pub go_on : ℕ → RateLimiter F → RateLimiter F × Option RateCheck
  go_on now r = next_of r.waiting now r
