-- ===== src/Limiter/Grants.antt =====
-- rate_limiter.go: how many tokens a limiter grants in a window of time, whoever asks for them.
use native.Mathlib.Nat.{mul-add}
use go_octopi.Base.{
  ℕ, suc, ◌+◌, ◌-◌, ◌*◌, ◌≤◌, ◌≡◌, refl, Bool, true, false, List, [], ◌∷◌, All, arith, ltb,
  if◌then◌else◌, inl, inr, Bool-cases,
}
use go_octopi.Base.Time.{Time}
use go_octopi.Limiter.{TokenBucketLimiter, token, refill, attempt}

-- The rounds that the waiters make, in the order in which they hold the lock, each with the time that
-- it read; and the number of those that took a token.
unfoldable pub run : TokenBucketLimiter → List Time → ℕ × TokenBucketLimiter
run l [] = (0, l)
run l (t ∷ ts) =
    let (taken, l') = attempt l t in
    let (grants, end) = run l' ts in (if taken then suc grants else grants, end)

-- The time of the window is split at a round.
split :
    (rate start t end : ℕ)
    → start ≤ t
    → t ≤ end
    → rate * (end - start) ≡ rate * (t - start) + rate * (end - t)
split rate start t end h k =
    let whole : end - start ≡ (t - start) + (end - t) = omega arith in
    rw (whole, mul-add rate (t - start) (end - t)) refl

-- A round pays for what it takes with the tokens of the time that passed.
attempt-paid :
    (l : TokenBucketLimiter) (t end : Time)
    → t ≤ end
    → l.last ≤ end
    → l.tokens ≤ l.capacity
    → ((if (attempt l t).0 then token else 0)
          + (attempt l t).1.tokens
          + l.rate * (end - (attempt l t).1.last)
        ≤ l.tokens + l.rate * (end - l.last))
      × ((attempt l t).1.last ≤ end)
      × ((attempt l t).1.tokens ≤ (attempt l t).1.capacity)
      × ((attempt l t).1.rate ≡ l.rate)
      × ((attempt l t).1.capacity ≡ l.capacity)
unfolding attempt refill
attempt-paid l t end h k f = elim (Bool-cases (ltb l.last t)) [
  | inl later ↦ (
    ground (arith, split l.rate l.last t end (ground arith) h),
    ground arith,
    ground arith,
    ground arith,
    ground arith,
  )
  | inr early ↦ (ground arith, ground arith, ground arith, ground arith, ground arith)
]

counted :
    (taken : Bool) (n : ℕ)
    → (if taken then suc n else n) * token ≡ (if taken then token else 0) + n * token
counted true n = omega arith
counted false n = omega arith

run-paid :
    (l : TokenBucketLimiter) (ts : List Time) (end : Time)
    → l.tokens ≤ l.capacity
    → l.last ≤ end
    → All (λ t. t ≤ end) ts
    → ((run l ts).0 * token ≤ l.tokens + l.rate * (end - l.last))
      × ((run l ts).1.tokens ≤ l.capacity)
unfolding run
run-paid l [] end f k h = (omega arith, f)
run-paid l (t ∷ ts) end f k (now, later) =
    let l' = (attempt l t).1 in
    let (paid, on_time, fits, same_rate, same_capacity) = attempt-paid l t end now k f in
    let (rest, held) = run-paid l' ts end fits on_time later in
    let scaled : l'.rate * (end - l'.last) ≡ l.rate * (end - l'.last) = rw same_rate refl in
    (
      omega (arith, paid, rest, scaled, counted (attempt l t).0 (run l' ts).0),
      omega (arith, held, same_capacity),
    )

-- A limiter that holds at most its capacity grants, in any window from its last refill to a time that no
-- round is behind, at most its capacity and the tokens of the window's length, and holds at most its
-- capacity afterwards. The rounds may come from any number of waiters.
pub run-le :
    (l : TokenBucketLimiter) (ts : List Time) (end : Time)
    → l.tokens ≤ l.capacity
    → l.last ≤ end
    → All (λ t. t ≤ end) ts
    → ((run l ts).0 * token ≤ l.capacity + l.rate * (end - l.last))
      × ((run l ts).1.tokens ≤ l.capacity)
run-le l ts end f k h = let (paid, held) = run-paid l ts end f k h in (omega (arith, paid), held)
