-- ===== src/Server/RateLimiter/Amounts.antt =====
-- apps/game-server/src/rate-limiter.ts: what buckets hold, however calls overlap.
use agent_poker.Base.{ℕ, ◌≡◌, ◌≤◌, true, inl, inr, Bool-cases, arith}
use agent_poker.Server.RateLimiter.{Doubles, RateLimitConfig, TokenBucket, refilled, decide}

-- The last time that a `Date` has.
abbrev pub latest : ℕ
latest = 8640000000000000

module _ {F : Type 0} (d : Doubles F) (greatest : F) where
  -- A finite double that is not below zero.
  abbrev pub IsAmount : F → Type 0
  IsAmount x = (d.ge x (d.of_ℕ 0) ≡ true) × (d.ge greatest x ≡ true)

  -- What doubles do, where `greatest` is `Number.MAX_VALUE`: a sum or a product of amounts may be
  -- infinite, but is never below zero or NaN.
  pub record AreDoubles : Type 0 where
    pub ge_trans : (x y z : F) → d.ge x y ≡ true → d.ge y z ≡ true → d.ge x z ≡ true
    pub elapsed : (s t : ℕ) → s ≤ t → t ≤ latest → IsAmount (d.minus (d.of_ℕ t) (d.of_ℕ s))
    pub in_seconds : (x : F) → IsAmount x → IsAmount (d.over x (d.of_ℕ 1000))
    pub gained : (x y : F) → IsAmount x → IsAmount y → d.ge (d.times x y) (d.of_ℕ 0) ≡ true
    pub added :
        (x y : F) → IsAmount x → d.ge y (d.of_ℕ 0) ≡ true → d.ge (d.plus x y) (d.of_ℕ 0) ≡ true
    pub least_between :
        (x y : F)
        → IsAmount x
        → d.ge y (d.of_ℕ 0) ≡ true
        → (d.ge (d.least x y) (d.of_ℕ 0) ≡ true) × (d.ge x (d.least x y) ≡ true)
    pub taken :
        (x y : F)
        → IsAmount x
        → IsAmount y
        → d.ge x y ≡ true
        → (d.ge (d.minus x y) (d.of_ℕ 0) ≡ true) × (d.ge x (d.minus x y) ≡ true)

  -- At most a bound.
  abbrev pub IsWithin : F → F → Type 0
  IsWithin bound x = (d.ge x (d.of_ℕ 0) ≡ true) × (d.ge bound x ≡ true)

  pub record IsModest (bound : F) (config : RateLimitConfig F) : Type 0 where
    pub most : IsWithin bound config.max_tokens
    pub rate : IsAmount config.refill_rate

  -- A bucket that was last filled no later than a time.
  pub record IsSoundAt (bound : F) (now : ℕ) (b : TokenBucket F) : Type 0 where
    pub within : IsWithin bound b.tokens
    pub past : b.last_refill ≤ now

  module _ (laws : AreDoubles) (bound : F) (finite : d.ge greatest bound ≡ true) where
    IsWithin-IsAmount : (x : F) → IsWithin bound x → IsAmount x
    IsWithin-IsAmount x h = (h.0, laws.ge_trans greatest bound x finite h.1)

    pub refilled-IsWithin :
        (config : RateLimitConfig F) (now : ℕ) (b : TokenBucket F)
        → IsModest bound config
        → IsSoundAt bound now b
        → now ≤ latest
        → IsWithin bound (refilled d config now b)
    unfolding refilled
    refilled-IsWithin config now b c h l =
        let gone = laws.in_seconds _ (laws.elapsed b.last_refill now h.past l) in
        let gain = laws.gained _ config.refill_rate gone c.rate in
        let sum = laws.added b.tokens _ (IsWithin-IsAmount b.tokens h.within) gain in
        let (low, high) =
          laws.least_between config.max_tokens _ (IsWithin-IsAmount config.max_tokens c.most) sum in
        (low, laws.ge_trans bound config.max_tokens _ c.most.1 high)

    pub decide-IsSoundAt :
        (config : RateLimitConfig F) (needed : F) (now : ℕ) (filled : F)
        → IsAmount needed
        → IsWithin bound filled
        → IsSoundAt bound now (decide d config needed now filled).0
    decide-IsSoundAt config needed now filled n h = elim (Bool-cases (d.ge filled needed)) [
      | inl enough ↦
          let (low, high) = laws.taken filled needed (IsWithin-IsAmount filled h) n enough in
          rw enough
            (record { within = (low, laws.ge_trans bound filled _ h.1 high); past = omega arith })
      | inr short ↦ rw short (record { within = h; past = omega arith })
    ]
