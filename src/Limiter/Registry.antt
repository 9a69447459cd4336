-- ===== src/Limiter/Registry.antt =====
-- rate_limiter.go: the limiters by host, and `RateLimitedTransport`. A limiter is shared by all that hold
-- it, so the registry is the store of the limiters and a host stands for its limiter.
use go_octopi.Base.{
  ℕ, ◌≡◌, refl, Option, none, some, String, String-Eq, Dict, lookup, insert, lookup-insert, inl,
  inr, arith, Bool-cases, Option-cases, eq_iff, if◌then◌else◌, ◌==◌,
}
use go_octopi.Base.Fault.{Result, ok, err}
use go_octopi.Base.Int.{ℤ, pos}
use go_octopi.Base.Time.{Time}
use go_octopi.Limiter.{TokenBucketLimiter, Clock, new_token_bucket_limiter, wait}

abbrev pub Registry : Type 0
Registry = Dict String TokenBucketLimiter

-- rateLimitConfigs: the rate and the burst of a host.
abbrev pub rate_limit_configs : String → Option (ℤ × ℤ)
rate_limit_configs host = if host == "mainnet.helius-rpc.com" then some (pos 9, pos 9) else none

abbrev put : String → Option TokenBucketLimiter → Registry → Registry
put key none registry = registry
put key (some limiter) registry = insert key limiter registry

-- get
unfoldable pub get_limiter : String → Option TokenBucketLimiter → Registry → Registry
get_limiter key made registry = elim (lookup key registry) [
  | some limiter ↦ registry
  | none ↦ put key made registry
]

abbrev host_of : Option String → String
host_of none = ""
host_of (some host) = host

abbrev for_config : String → Option (ℤ × ℤ) → Time → Registry → Option String × Registry
for_config host none now registry = (none, registry)
for_config host (some (rate, burst)) now registry =
    (some host, get_limiter host (new_token_bucket_limiter rate burst now) registry)

-- limiterForEndpoint, by the host name that url.Parse reads
unfoldable pub limiter_for_endpoint :
    (String → Option String) → String → Time → Registry → Option String × Registry
limiter_for_endpoint hostname endpoint now registry =
    let host = host_of (hostname endpoint) in
    if host == "" then (none, registry) else for_config host (rate_limit_configs host) now registry

module _ (clock : Clock) {Request Reply : Type 0} where
  -- RoundTrip, over the base transport; `wait` has the fuel of its loop.
  unfoldable pub rate_limited_round_trip :
      ℕ
      → (Request → Clock.World clock → Result Reply × Clock.World clock)
      → Request
      → Option TokenBucketLimiter
      → Clock.World clock
      → Option (Result Reply × Option TokenBucketLimiter × Clock.World clock)
  rate_limited_round_trip fuel base request none w =
      let (reply, w') = base request w in some (reply, none, w')
  rate_limited_round_trip fuel base request (some l) w = elim (wait clock fuel l w) [
    | none ↦ none
    | some (err e, l', w1) ↦ some (err e, some l', w1)
    | some (ok done, l', w1) ↦ let (reply, w2) = base request w1 in some (reply, some l', w2)
  ]

-- A limiter that the registry has is kept with its tokens, whatever is made for its host.
pub get_limiter-keeps :
    (key : String) (made : Option TokenBucketLimiter) (registry : Registry) (l : TokenBucketLimiter)
    → lookup key registry ≡ some l
    → get_limiter key made registry ≡ registry
unfolding get_limiter
get_limiter-keeps key made registry l h = rw (h, get_limiter) refl

get_limiter-insert :
    (key : String) (l : TokenBucketLimiter) (registry : Registry)
    → lookup key registry ≡ none
    → get_limiter key (some l) registry ≡ insert key l registry
unfolding get_limiter
get_limiter-insert key l registry absent = rw (absent, get_limiter) refl

get_limiter-again :
    (key : String) (l : TokenBucketLimiter) (made : Option TokenBucketLimiter) (registry : Registry)
    → get_limiter key made (get_limiter key (some l) registry) ≡ get_limiter key (some l) registry
get_limiter-again key l made registry = elim (Option-cases (lookup key registry)) [
  | inr (kept, there) ↦
      rw (get_limiter-keeps key (some l) registry kept there)
        (get_limiter-keeps key made registry kept there)
  | inl absent ↦ rw (get_limiter-insert key l registry absent) (
      get_limiter-keeps key made (insert key l registry) l
        (ground (arith, lookup-insert key key l registry, eq_iff key key)))
]

-- Two endpoints of one host share the limiter: the second call changes nothing.
pub limiter_for_endpoint-again :
    (hostname : String → Option String) (a b : String) (now later : Time) (registry : Registry)
    → hostname a ≡ hostname b
    → limiter_for_endpoint hostname b later (limiter_for_endpoint hostname a now registry).1
      ≡ limiter_for_endpoint hostname a now registry
unfolding limiter_for_endpoint new_token_bucket_limiter
limiter_for_endpoint-again hostname a b now later registry same = rw (← same) (
    let host = host_of (hostname a) in
    elim (Bool-cases (host == "")) [
      | inl empty ↦ rw (empty, limiter_for_endpoint) refl
      | inr named ↦ elim (Bool-cases (host == "mainnet.helius-rpc.com")) [
        | inr unlimited ↦ rw (named, unlimited, limiter_for_endpoint) refl
        | inl limited ↦
            rw (named, limited, limiter_for_endpoint, get_limiter-again host _ _ registry) refl
      ]
    ])
