-- ===== src/Limiter/Tests.antt =====
-- rate_limiter.go: runs of a limiter for nine tokens in a second, as the one of the client.
use go_octopi.Base.{ℕ, ◌≡◌, ◌≤◌, ◌*◌, ◌+◌, ◌-◌, refl, none, some, [], ◌∷◌, arith}
use go_octopi.Base.Fault.{ok}
use go_octopi.Base.Int.{pos, negsuc}
use go_octopi.Limiter.{
  TokenBucketLimiter, Clock, token, new_token_bucket_limiter, refill, attempt, wait_duration, wait,
}
use go_octopi.Limiter.Grants.{run, run-le}
use go_octopi.Limiter.Progress.{Runs, Returns, wait-Returns}

-- Nine tokens in a second, and no token left.
abbrev drained : TokenBucketLimiter
drained = record { rate = 9; capacity = 9 * token; tokens = 0; last = 0 }

-- The world is the time, and a pause takes its length.
abbrev clock : Clock
clock = record { World = ℕ; now = λ w. w; cancelled = λ w. none; pause = λ d w. (none, w + d) }

clock-Runs : Runs clock
clock-Runs = record {
  open_context = λ w. refl;
  uninterrupted = λ d w. refl;
  passes = λ d w. omega arith;
}

no_rate : new_token_bucket_limiter (negsuc 0) (pos 9) 0 ≡ none
unfolding new_token_bucket_limiter
no_rate = refl

-- In half a second four of six rounds are granted.
half_second :
    (run drained (500000000 ∷ 500000000 ∷ 500000000 ∷ 500000000 ∷ 500000000 ∷ 500000000 ∷ [])).0 ≡ 4
unfolding run attempt refill
half_second = refl

-- The pause rounds down, and a second one of a millisecond is needed.
two_pauses :
    wait clock 3 drained 0
    ≡ some (ok tt, record drained { tokens = 8999999; last = 112111111 }, 112111111)
unfolding wait attempt refill wait_duration
two_pauses = refl

run-le_example :
    ((run drained (500000000 ∷ 500000000 ∷ [])).0 * token ≤ 9 * token + 9 * (500000000 - 0))
    × ((run drained (500000000 ∷ 500000000 ∷ [])).1.tokens ≤ 9 * token)
run-le_example =
    run-le drained (500000000 ∷ 500000000 ∷ []) 500000000 (omega arith) (omega arith)
      (omega arith, (omega arith, tt))

wait-Returns_example : Returns clock clock-Runs 3 drained 0
wait-Returns_example =
    wait-Returns clock clock-Runs 0 drained 0 (omega arith) (omega arith) (omega arith)
