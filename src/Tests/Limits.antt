-- ===== src/Tests/Limits.antt =====
-- Runs of the rate limiter.
use agent_poker.Base.{ℕ, ◌+◌, ◌-◌, ◌*◌, ◌/◌, ◌≡◌, refl, List, [], ◌∷◌, some, All, arith, leb, min}
use agent_poker.Server.RateLimiter.{Doubles, RateLimitConfig, allowed, new_limiter, action_type}
use agent_poker.Server.RateLimiter.Burst.{IsAtRest, begin_calls, answers, answers-begin_calls}
use agent_poker.Server.RateLimiter.Amounts.{AreDoubles, IsWithin}
use agent_poker.Server.RateLimiter.Runs.{Event, begins, continues, run, run-IsWithin}

-- A stand-in for doubles, on which the laws hold.
abbrev whole : Doubles ℕ
whole = record {
  of_ℕ = λ n. n;
  plus = λ a b. a + b;
  minus = λ a b. a - b;
  times = λ a b. a * b;
  over = λ a b. a / b;
  least = min;
  ge = λ a b. leb b a;
  ceil = some;
}

abbrev actions : RateLimitConfig ℕ
actions = record { max_tokens = 10; refill_rate = 10 }

actions-IsAtRest : IsAtRest whole actions
actions-IsAtRest = record {
  minus_itself = λ t. omega arith;
  over_nought = refl;
  times_rate = refl;
  plus_nought = refl;
  least_itself = refl;
}

-- Twelve calls, though a bucket has ten tokens.
abbrev twelve : List ℕ
twelve = 5 ∷ 5 ∷ 5 ∷ 5 ∷ 5 ∷ 5 ∷ 5 ∷ 5 ∷ 5 ∷ 5 ∷ 5 ∷ 6 ∷ []

answers-begin_calls_example :
    All
      (λ told. told ≡ some allowed)
      (answers whole twelve (begin_calls whole 12 7 action_type 1 (new_limiter whole)))
answers-begin_calls_example =
    answers-begin_calls whole actions 7 action_type 1 twelve (new_limiter whole) actions-IsAtRest
      refl refl refl refl

abbrev greatest : ℕ
greatest = 10000000000000000

whole-AreDoubles : AreDoubles whole greatest
whole-AreDoubles = record {
  ge_trans = λ x y z h k. ground arith;
  elapsed = λ s t h k. ground arith;
  in_seconds = λ x h. ground arith;
  gained = λ x y h k. ground arith;
  added = λ x y h k. ground arith;
  least_between = λ x y h k. ground arith;
  taken = λ x y h k e. ground arith;
}

-- Two calls of an agent that overlap, and a third.
abbrev three_calls : List (Event ℕ)
three_calls =
    begins 7 action_type 1
    ∷ begins 7 action_type 1
    ∷ continues 5
    ∷ continues 5
    ∷ begins 7 action_type 1
    ∷ continues 400
    ∷ []

run-IsWithin_example :
    All
      (λ b. IsWithin whole greatest 10 b.tokens)
      (run whole three_calls (new_limiter whole)).objects
run-IsWithin_example =
    run-IsWithin whole greatest 10 three_calls 0 (new_limiter whole) whole-AreDoubles refl refl refl
      (
        record { most = (refl, refl); rate = (refl, refl) },
        (record { most = (refl, refl); rate = (refl, refl) }, tt),
      )
      (
        (refl, refl),
        (
          (refl, refl),
          (
            omega arith,
            omega arith,
            (omega arith, omega arith, ((refl, refl), (omega arith, omega arith, tt))),
          ),
        ),
      )
