-- ===== src/Limiter.antt =====
-- rate_limiter.go: `TokenBucketLimiter`. The source counts tokens in float64; the model counts
-- billionths of a token exactly, for a rate that is a whole number of tokens in a second, as the
-- configured rate is. Then a nanosecond gives `rate` billionths.
pub mod Grants
pub mod Progress
pub mod Registry
mod Tests
use go_octopi.Base.{
  ℕ, zero, suc, ◌+◌, ◌-◌, ◌*◌, ◌/◌, Bool, true, false, Option, none, some, List, [], ◌∷◌, ltb, leb,
  nat_eq, ◌||◌, not, if◌then◌else◌, min,
}
use go_octopi.Base.Fault.{Error, Result, ok, err}
use go_octopi.Base.Int.{ℤ, is_pos, to_ℕ}
use go_octopi.Base.Time.{Time, second, millisecond}

abbrev pub token : ℕ
token = 1000000000

pub record TokenBucketLimiter : Type 0 where
  pub rate : ℕ
  pub capacity : ℕ
  pub tokens : ℕ
  pub last : Time

-- NewTokenBucketLimiter at the time `now`; `none` is a panic.
unfoldable pub new_token_bucket_limiter : ℤ → ℤ → Time → Option TokenBucketLimiter
new_token_bucket_limiter rate burst now =
    if not (is_pos rate)
    then none
    else if not (is_pos burst)
    then none
    else some (record {
      rate = to_ℕ rate;
      capacity = to_ℕ burst * token;
      tokens = to_ℕ burst * token;
      last = now;
    })

unfoldable pub refill : TokenBucketLimiter → Time → TokenBucketLimiter
refill l now =
    if ltb l.last now
    then record l { tokens = min (l.tokens + l.rate * (now - l.last)) l.capacity; last = now }
    else l

-- What a round of `Wait` does under the lock: a refill, and a token is taken if there is one.
unfoldable pub attempt : TokenBucketLimiter → Time → Bool × TokenBucketLimiter
unfolding refill
attempt l now =
    let r = refill l now in
    if leb token r.tokens then (true, record r { tokens = r.tokens - token }) else (false, r)

-- The pause behind a round that found no token.
unfoldable pub wait_duration : TokenBucketLimiter → ℕ
wait_duration l =
    let needed = (token - l.tokens) / l.rate in if nat_eq needed 0 then millisecond else needed

-- `time` and `context` as far as `Wait` uses them; `pause` is the `select` on the timer and the
-- context, an error if the context is done first.
pub record Clock : Type 1 where
  pub World : Type 0
  pub now : World → Time
  pub cancelled : World → Option Error
  pub pause : ℕ → World → Option Error × World

module _ (clock : Clock) where
  open clock use {World, now, cancelled, pause}

  -- `Wait` with fuel for its endless loop and no other waiter: `none` is a loop that goes on.
  unfoldable pub wait :
      ℕ → TokenBucketLimiter → World → Option (Result (Unit {0}) × TokenBucketLimiter × World)
  wait zero l w = none
  wait (suc fuel) l w = elim (cancelled w) [
    | some e ↦ some (err e, l, w)
    | none ↦
        let (taken, l') = attempt l (now w) in
        elim taken [
          | true ↦ some (ok tt, l', w)
          | false ↦
              let (stopped, w') = pause (wait_duration l') w in
              elim stopped [ some e ↦ some (err e, l', w') | none ↦ wait fuel l' w' ]
        ]
  ]
