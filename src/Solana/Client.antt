-- ===== src/Solana/Client.antt =====
-- solana_client.go: the client's state, the repositories that it makes when they are first asked for, and
-- the methods that go through them. Locks and the logger are left out.
pub mod Rates
pub mod Online
use go_octopi.Base.{
  ℕ, ◌*◌, false, Option, none, some, List, [], String, String-Eq, if◌then◌else◌, ◌==◌,
}
use go_octopi.Base.Fault.{Error, plain, Result, ok, err}
use go_octopi.Base.Int.{ℤ}
use go_octopi.Base.Text.{trim_space}
use go_octopi.Base.Time.{Time, second}
use go_octopi.Limiter.Registry.{Registry, limiter_for_endpoint}
use go_octopi.Server.Floats.{Floats}
use go_octopi.Server.WalletCache.{Environment}
use go_octopi.Solana.Names.{
  NameSource, Repository, ValidatorPerformance, recent_validators, record_xirr,
}
use go_octopi.Solana.Names.Lookup.{lookup_name}
use go_octopi.Solana.Prices.{PriceSource, SolPriceCacheEntry, price_usd}

abbrev pub default_http_timeout : ℕ
default_http_timeout = 15 * second

-- An `http.Client` over the default transport: its timeout, and the host whose limiter its transport
-- waits for.
pub record HttpClient : Type 0 where
  pub timeout : ℕ
  pub limiter : Option String

-- newRateLimitedHTTPClient, with the registry of limiters
unfoldable pub new_rate_limited_http_client :
    (String → Option String) → String → Time → Registry → HttpClient × Registry
new_rate_limited_http_client hostname endpoint now registry =
    let (limiter, registry') = limiter_for_endpoint hostname endpoint now registry in
    (record { timeout = default_http_timeout; limiter = limiter }, registry')

-- newSOLPriceRepository: nil, or a repository that holds no price
unfoldable pub new_sol_price_repository : {F : Type 0} → F → String → Option (SolPriceCacheEntry F)
new_sol_price_repository zero_float key =
    if trim_space key == ""
    then none
    else some (record { value = zero_float; stored_at = 0; valid = false })

module _ {F : Type 0} (floats : Floats F) where
  -- newValidatorRepository: nil, or an empty repository
  unfoldable pub new_validator_repository : String → Option (Repository floats)
  new_validator_repository key =
      if trim_space key == "" then none else some (record { cache = []; node_cache = [] })

  -- RPCSolanaClient; a repository that is nil is not there yet.
  pub record RpcSolanaClient : Type 0 where
    pub endpoint : String
    pub http_client : Option HttpClient
    pub validator_api_key : String
    pub validators : Option (Repository floats)
    pub price_repo : Option (SolPriceCacheEntry F)

  -- endpoint: `none` is a panic
  unfoldable pub endpoint_of : RpcSolanaClient → Option String
  endpoint_of c = if c.endpoint == "" then none else some c.endpoint

  abbrev kept_client :
      RpcSolanaClient → HttpClient × Registry → HttpClient × RpcSolanaClient × Registry
  kept_client c (h, registry) = (h, record c { http_client = some h }, registry)

  -- httpClient: `none` is a panic
  unfoldable pub http_client_of :
      (String → Option String)
      → Time
      → RpcSolanaClient
      → Registry
      → Option (HttpClient × RpcSolanaClient × Registry)
  http_client_of hostname now c registry = elim c.http_client [
    | some h ↦ some (h, c, registry)
    | none ↦ elim (endpoint_of c) [
      | none ↦ none
      | some url ↦ some (kept_client c (new_rate_limited_http_client hostname url now registry))
    ]
  ]

  -- The key of the client's settings, or that of the environment.
  unfoldable pub api_key : Environment → RpcSolanaClient → String
  api_key env c =
      if c.validator_api_key == "" then env.getenv "VALIDATORS_API_KEY" else c.validator_api_key

  -- ensureValidatorRepository
  unfoldable pub ensure_validator_repository : Environment → RpcSolanaClient → RpcSolanaClient
  ensure_validator_repository env c = elim c.validators [
    | some r ↦ c
    | none ↦
        let key = api_key env c in
        if key == "" then c else record c { validators = new_validator_repository key }
  ]

  -- ensurePriceRepository
  unfoldable pub ensure_price_repository : Environment → RpcSolanaClient → RpcSolanaClient
  ensure_price_repository env c = elim c.price_repo [
    | some r ↦ c
    | none ↦
        let key = api_key env c in
        if key == ""
        then c
        else record c { price_repo = new_sol_price_repository (floats.of_int (ℤ.pos 0)) key }
  ]

  -- LookupValidatorName
  unfoldable pub lookup_validator_name :
      (source : NameSource)
      → Environment
      → String
      → RpcSolanaClient
      → NameSource.World source
      → Result String × RpcSolanaClient × NameSource.World source
  lookup_validator_name source env vote c w =
      let c1 = ensure_validator_repository env c in
      elim c1.validators [
        | none ↦ (err (plain "validator repository not configured"), c1, w)
        | some r ↦
            let (reply, r', w') = lookup_name floats source vote r w in
            (reply, record c1 { validators = some r' }, w')
      ]

  -- RecordValidatorXIRR, at the repository's time
  unfoldable pub record_validator_xirr :
      Environment → String → F → Time → RpcSolanaClient → RpcSolanaClient
  record_validator_xirr env vote rate now c =
      let c1 = ensure_validator_repository env c in
      elim c1.validators [
        | none ↦ c1
        | some r ↦ record c1 { validators = some (record_xirr floats vote rate now r) }
      ]

  -- RecentValidatorPerformances, at the repository's time
  unfoldable pub recent_validator_performances :
      Environment → ℤ → Time → RpcSolanaClient → List (ValidatorPerformance F) × RpcSolanaClient
  recent_validator_performances env limit now c =
      let c1 = ensure_validator_repository env c in
      elim c1.validators [
        | none ↦ ([], c1)
        | some r ↦
            let (results, cache') = recent_validators now limit r.cache in
            (results, record c1 { validators = some (record r { cache = cache' }) })
      ]

  -- GetSOLPrice
  unfoldable pub get_sol_price :
      (source : PriceSource F)
      → Environment
      → RpcSolanaClient
      → PriceSource.World source
      → Result F × RpcSolanaClient × PriceSource.World source
  get_sol_price source env c w =
      let c1 = ensure_price_repository env c in
      elim c1.price_repo [
        | none ↦ (err (plain "sol price repository not configured"), c1, w)
        | some cache ↦
            let (reply, cache', w') = price_usd source cache w in
            (reply, record c1 { price_repo = some cache' }, w')
      ]
