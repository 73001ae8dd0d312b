-- ===== src/Server/RateLimiter/Burst.antt =====
-- apps/game-server/src/rate-limiter.ts: calls that begin before the first has gone on.
use agent_poker.Base.{
  ℕ, zero, suc, ◌≡◌, refl, ap, ◌∙◌, List, [], ◌∷◌, ◌++◌, length, Option, none, some, All, true,
  get_key, get_or,
}
use agent_poker.History.HashChain.{Text, text_eq}
use agent_poker.Server.RateLimiter.{
  Doubles, RateLimitConfig, RateLimiter, RateCheck, PendingCall, TokenBucket, allowed,
  bucket_key_eq, try_consume, go_on, finish, outcome, refilled, full_bucket,
}

module _ {F : Type 0} (d : Doubles F) where
  -- What doubles do with a rate that is finite and not below zero, if no time has passed.
  pub record IsAtRest (config : RateLimitConfig F) : Type 0 where
    pub minus_itself : (t : ℕ) → d.minus (d.of_ℕ t) (d.of_ℕ t) ≡ d.of_ℕ 0
    pub over_nought : d.over (d.of_ℕ 0) (d.of_ℕ 1000) ≡ d.of_ℕ 0
    pub times_rate : d.times (d.of_ℕ 0) config.refill_rate ≡ d.of_ℕ 0
    pub plus_nought : d.plus config.max_tokens (d.of_ℕ 0) ≡ config.max_tokens
    pub least_itself : d.least config.max_tokens config.max_tokens ≡ config.max_tokens

  -- `n` calls of an agent begin.
  unfoldable pub begin_calls : ℕ → ℕ → Text → F → RateLimiter F → RateLimiter F
  begin_calls zero agent_id type tokens r = r
  begin_calls (suc n) agent_id type tokens r =
      begin_calls n agent_id type tokens (try_consume agent_id type tokens r).0

  -- What the waiting calls are told as they go on at some times.
  unfoldable pub answers : List ℕ → RateLimiter F → List (Option RateCheck)
  answers [] r = []
  answers (now ∷ times) r = (go_on d now r).1 ∷ answers times (go_on d now r).0

  abbrev same_calls : ℕ → PendingCall F → List (PendingCall F)
  same_calls zero c = []
  same_calls (suc n) c = c ∷ same_calls n c

  same_calls_more :
      (n : ℕ) (c : PendingCall F) (cs : List (PendingCall F))
      → (cs ++ c ∷ []) ++ same_calls n c ≡ cs ++ c ∷ same_calls n c
  same_calls_more n c [] = refl
  same_calls_more n c (x ∷ cs) = ap (λ l. x ∷ l) (same_calls_more n c cs)

  append_none : (cs : List (PendingCall F)) → cs ≡ cs ++ []
  append_none [] = refl
  append_none (c ∷ cs) = ap (λ l. c ∷ l) (append_none cs)

  get_last :
      (bs : List (TokenBucket F)) (b other : TokenBucket F)
      → get_or (bs ++ b ∷ []) (length bs) other ≡ b
  get_last [] b other = refl
  get_last (x ∷ bs) b other = get_last bs b other

  module _ (config : RateLimitConfig F) (agent_id : ℕ) (type : Text) (tokens : F) where
    abbrev first_call : PendingCall F
    first_call = record { key = (agent_id, type); needed = tokens; config = config; found = none }

    try_consume-waits :
        (r : RateLimiter F)
        → get_key text_eq type r.configs ≡ some config
        → get_key bucket_key_eq (agent_id, type) r.store ≡ none
        → (try_consume agent_id type tokens r).0
          ≡ record r { waiting = r.waiting ++ first_call ∷ [] }
    unfolding try_consume
    try_consume-waits r known new = rw (known, new) refl

    begin_calls-waiting :
        (n : ℕ) (r : RateLimiter F)
        → get_key text_eq type r.configs ≡ some config
        → get_key bucket_key_eq (agent_id, type) r.store ≡ none
        → (begin_calls n agent_id type tokens r).waiting ≡ r.waiting ++ same_calls n first_call
    unfolding begin_calls
    begin_calls-waiting zero r known new = append_none r.waiting
    begin_calls-waiting (suc n) r known new =
        ap (λ (q : RateLimiter F). (begin_calls n agent_id type tokens q).waiting)
          (try_consume-waits r known new)
        ∙ begin_calls-waiting n (record r { waiting = r.waiting ++ first_call ∷ [] }) known new
        ∙ same_calls_more n first_call r.waiting

    refilled-full :
        (now : ℕ)
        → IsAtRest config
        → refilled d config now (full_bucket d config now) ≡ config.max_tokens
    unfolding refilled
    refilled-full now rest =
        let most = config.max_tokens in
        let scaled = λ (x : F). d.times (d.over x (d.of_ℕ 1000)) config.refill_rate in
        ap (λ x. d.least most (d.plus most (scaled x))) (rest.minus_itself now)
        ∙ ap (λ x. d.least most (d.plus most (d.times x config.refill_rate))) rest.over_nought
        ∙ ap (λ x. d.least most (d.plus most x)) rest.times_rate
        ∙ ap (d.least most) rest.plus_nought
        ∙ rest.least_itself

    -- A call that has read no bucket finds a full one.
    first_call-allowed :
        (now : ℕ) (r : RateLimiter F)
        → IsAtRest config
        → d.ge config.max_tokens tokens ≡ true
        → (outcome d first_call now r).1 ≡ allowed
    first_call-allowed now r rest enough =
        rw
          (
            get_last r.objects (full_bucket d config now) (full_bucket d config now),
            refilled-full now rest,
            enough,
          )
          refl

    answers-allowed :
        (times : List ℕ) (r : RateLimiter F)
        → IsAtRest config
        → d.ge config.max_tokens tokens ≡ true
        → r.waiting ≡ same_calls (length times) first_call
        → All (λ told. told ≡ some allowed) (answers times r)
    unfolding answers go_on
    answers-allowed [] r rest enough e = tt
    answers-allowed (now ∷ times) r rest enough e =
        let later = record r { waiting = same_calls (length times) first_call } in
        rw e (
          ap some (first_call-allowed now later rest enough),
          answers-allowed times (finish d first_call now later) rest enough refl,
        )

  -- If no call waits, an agent has no bucket for a type yet, and in doubles nothing is added to a
  -- full bucket of the type's config in no time, then however many calls of that agent and type
  -- begin before the first of them goes on, each for no more tokens than a full bucket has, all of
  -- them are allowed, whenever they go on.
  pub answers-begin_calls :
      (config : RateLimitConfig F) (agent_id : ℕ) (type : Text) (tokens : F) (times : List ℕ)
      (r : RateLimiter F)
      → IsAtRest config
      → get_key text_eq type r.configs ≡ some config
      → get_key bucket_key_eq (agent_id, type) r.store ≡ none
      → r.waiting ≡ []
      → d.ge config.max_tokens tokens ≡ true
      → All
          (λ told. told ≡ some allowed)
          (answers times (begin_calls (length times) agent_id type tokens r))
  answers-begin_calls config agent_id type tokens times r rest known new idle enough =
      answers-allowed config agent_id type tokens times
        (begin_calls (length times) agent_id type tokens r) rest enough
        (begin_calls-waiting config agent_id type tokens (length times) r known new
          ∙ ap (λ l. l ++ same_calls (length times) (first_call config agent_id type tokens)) idle)
