-- ===== src/Limiter/Progress.antt =====
-- rate_limiter.go: `Wait` returns.
use native.Mathlib.Nat.{mul-zero, mul-le-mul_left, lt-div-mul-add, mul_comm}
use go_octopi.Base.{
  ℕ, suc, ◌+◌, ◌-◌, ◌*◌, ◌/◌, ◌<◌, ◌≤◌, ◌≡◌, refl, ◌∙◌, true, false, none, some, arith, ltb, nat_eq,
  inl, inr, Bool-cases,
}
use go_octopi.Base.Fault.{ok}
use go_octopi.Base.Time.{Time}
use go_octopi.Limiter.{TokenBucketLimiter, token, refill, attempt, wait_duration, Clock, wait}

-- A context that is never done, and a clock that a pause takes at least its length on.
pub record Runs (clock : Clock) : Type 0 where
  pub open_context : (w : Clock.World clock) → Clock.cancelled clock w ≡ none
  pub uninterrupted : (d : ℕ) (w : Clock.World clock) → (Clock.pause clock d w).0 ≡ none
  pub passes :
      (d : ℕ) (w : Clock.World clock)
      → Clock.now clock w + d ≤ Clock.now clock (Clock.pause clock d w).1

attempt-grants :
    (l : TokenBucketLimiter) (t : Time)
    → token ≤ l.capacity
    → l.last ≤ t
    → token ≤ l.tokens + l.rate * (t - l.last)
    → (attempt l t).0 ≡ true
unfolding attempt refill
attempt-grants l t c k f = elim (Bool-cases (ltb l.last t)) [
  | inl later ↦ ground arith
  | inr early ↦
      let still : t - l.last ≡ 0 = ground arith in
      let nothing : l.rate * (t - l.last) ≡ 0 = rw still (mul-zero l.rate) in
      ground (arith, nothing)
]

attempt-misses :
    (l : TokenBucketLimiter) (t : Time)
    → l.last ≤ t
    → (attempt l t).0 ≡ false
    → ((attempt l t).1.last ≡ t)
      × ((attempt l t).1.rate ≡ l.rate)
      × ((attempt l t).1.capacity ≡ l.capacity)
      × ((attempt l t).1.tokens < token)
unfolding attempt refill
attempt-misses l t k h = (ground arith, ground arith, ground arith, ground arith)

mul_mono : (r a b : ℕ) → a ≤ b → r * a ≤ r * b
mul_mono r a b h = mul-le-mul_left r h

wait_duration-long :
    (l : TokenBucketLimiter)
    → 0 < l.rate
    → l.tokens < token
    → (0 < wait_duration l) × (token < l.tokens + l.rate * wait_duration l + l.rate)
unfolding wait_duration
wait_duration-long l r h =
    let below : token - l.tokens < (token - l.tokens) / l.rate * l.rate + l.rate =
      lt-div-mul-add r in
    let turn : (token - l.tokens) / l.rate * l.rate ≡ l.rate * ((token - l.tokens) / l.rate) =
      mul_comm _ _ in
    elim (Bool-cases (nat_eq ((token - l.tokens) / l.rate) 0)) [
      | inl short ↦
          let none_left : (token - l.tokens) / l.rate ≡ 0 = ground arith in
          let gone : l.rate * ((token - l.tokens) / l.rate) ≡ 0 = rw none_left (mul-zero l.rate) in
          rw short (ground arith, ground (arith, below, turn, gone))
      | inr some_wait ↦ rw some_wait (ground arith, ground (arith, below, turn))
    ]

attempt-nearly :
    (l : TokenBucketLimiter) (t : Time)
    → l.last ≤ t
    → token ≤ l.capacity
    → (attempt l t).0 ≡ false
    → token < l.tokens + l.rate * (t - l.last) + l.rate
    → token < (attempt l t).1.tokens + l.rate
unfolding attempt refill
attempt-nearly l t k c h f = elim (Bool-cases (ltb l.last t)) [
  | inl later ↦ ground arith
  | inr early ↦
      let still : t - l.last ≡ 0 = ground arith in
      let nothing : l.rate * (t - l.last) ≡ 0 = rw still (mul-zero l.rate) in
      ground (arith, nothing)
]

module _ (clock : Clock) (runs : Runs clock) where
  open clock use {World, now, pause}

  wait-granted :
      (n : ℕ) (l : TokenBucketLimiter) (w : World)
      → (attempt l (now w)).0 ≡ true
      → wait clock (suc n) l w ≡ some (ok tt, (attempt l (now w)).1, w)
  unfolding wait
  wait-granted n l w g = rw (runs.open_context w, g, wait) refl

  -- The world behind the pause of a round without a token.
  abbrev paused : TokenBucketLimiter → World → World
  paused l w = (pause (wait_duration (attempt l (now w)).1) w).1

  wait-missed :
      (n : ℕ) (l : TokenBucketLimiter) (w : World)
      → (attempt l (now w)).0 ≡ false
      → wait clock (suc n) l w ≡ wait clock n (attempt l (now w)).1 (paused l w)
  unfolding wait
  wait-missed n l w g =
      rw (runs.open_context w, g, runs.uninterrupted (wait_duration (attempt l (now w)).1) w, wait)
        refl

  abbrev pub Returns : ℕ → TokenBucketLimiter → World → Type 0
  Returns n l w =
      (l' : TokenBucketLimiter) × (w' : World) × (wait clock n l w ≡ some (ok tt, l', w'))

  -- Less than a nanosecond short of a token: two rounds are enough.
  wait-nearly :
      (n : ℕ) (l : TokenBucketLimiter) (w : World)
      → 0 < l.rate
      → token ≤ l.capacity
      → l.last ≤ now w
      → token < l.tokens + l.rate * (now w - l.last) + l.rate
      → Returns (suc (suc n)) l w
  wait-nearly n l w r c k f = elim (Bool-cases (attempt l (now w)).0) [
    | inl granted ↦ ((attempt l (now w)).1, w, wait-granted (suc n) l w granted)
    | inr missed ↦
        let l1 = (attempt l (now w)).1 in
        let w1 = paused l w in
        let (at_now, same_rate, same_capacity, short) = attempt-misses l (now w) k missed in
        let near = attempt-nearly l (now w) k c missed f in
        let (positive, enough) = wait_duration-long l1 (rw same_rate r) short in
        let later = runs.passes (wait_duration l1) w in
        let gained : l1.rate * 1 ≤ l1.rate * (now w1 - l1.last) =
          mul_mono l1.rate 1 (now w1 - l1.last) (omega (arith, later, at_now, positive)) in
        let granted =
          attempt-grants l1 (now w1) (rw same_capacity c) (omega (arith, later, at_now))
            (omega (arith, gained, near, same_rate)) in
        ((attempt l1 (now w1)).1, w1, wait-missed (suc n) l w missed ∙ wait-granted n l1 w1 granted)
  ]

  -- With a rate and room for a token, `Wait` returns without an error within three rounds if the context
  -- is never done, the clock is not behind the last refill, a pause takes at least its length, and no
  -- one else takes a token.
  pub wait-Returns :
      (n : ℕ) (l : TokenBucketLimiter) (w : World)
      → 0 < l.rate
      → token ≤ l.capacity
      → l.last ≤ now w
      → Returns (suc (suc (suc n))) l w
  wait-Returns n l w r c k = elim (Bool-cases (attempt l (now w)).0) [
    | inl granted ↦ ((attempt l (now w)).1, w, wait-granted (suc (suc n)) l w granted)
    | inr missed ↦
        let l1 = (attempt l (now w)).1 in
        let w1 = paused l w in
        let (at_now, same_rate, same_capacity, short) = attempt-misses l (now w) k missed in
        let (positive, enough) = wait_duration-long l1 (rw same_rate r) short in
        let later = runs.passes (wait_duration l1) w in
        let gained =
          mul_mono l1.rate (wait_duration l1) (now w1 - l1.last) (omega (arith, later, at_now)) in
        let (l', w', done) =
          wait-nearly n l1 w1 (rw same_rate r) (rw same_capacity c) (omega (arith, later, at_now))
            (omega (arith, gained, enough)) in
        (l', w', wait-missed (suc (suc n)) l w missed ∙ done)
  ]
