-- ===== src/Server/Site/Setup.antt =====
-- server.go: `NewServer` and its options, from the variables of the environment to the first state.
use go_octopi.Base.{
  ◌≡◌, refl, ◌||◌, Option, none, some, List, [], ◌∷◌, String, String-Eq, if◌then◌else◌, ◌==◌, arith,
  ◌⊎◌, inl, inr, ◌↔◌, Bool-cases, eq_iff,
}
use go_octopi.Base.Time.{Time}
use go_octopi.Limiter.Registry.{Registry}
use go_octopi.Lru.{new}
use go_octopi.Rewards.{Formats}
use go_octopi.Server.Floats.{Floats}
use go_octopi.Server.Network.{Network}
use go_octopi.Server.Pages.{Host, Server, World, new_unique_wallet_lru, warmup_epochs}
use go_octopi.Server.WalletCache.{
  LruPackage, WalletSummaryEntry, Environment, new_wallet_summary_cache,
}
use go_octopi.Tips.Select.{jito_processed_cache_size}
use go_octopi.Solana.Client.{RpcSolanaClient, new_rate_limited_http_client}

-- fmt.Sprintf(heliusMainnetTemplate, key) is a parameter, `url`.
module _ {F : Type 0} (floats : Floats F) (url : String → String)
    (hostname : String → Option String) where
  -- newDefaultSolanaClient, with the registry of limiters: `none` is a panic
  unfoldable pub new_default_solana_client :
      Environment → Time → Registry → Option (RpcSolanaClient floats × Registry)
  new_default_solana_client env now registry =
      let key = env.getenv "HELIUS_API_KEY" in
      let validator_key = env.getenv "VALIDATORS_API_KEY" in
      if (key == "") || (validator_key == "")
      then none
      else (let (http, registry') = new_rate_limited_http_client hostname (url key) now registry in
          some (
            record {
              endpoint = url key;
              http_client = some http;
              validator_api_key = validator_key;
              validators = none;
              price_repo = none;
            },
            registry',
          ))

-- A client of any implementation, and a logger; each may be nil.
pub record ServerConfig (C L : Type 0) : Type 0 where
  pub solana_client : Option C
  pub logger : Option L

-- ServerOption
pub data ServerOption (C L : Type 0) : Type 0 where
  with_solana_client : Option C → ServerOption C L
  with_logger : Option L → ServerOption C L

abbrev or_default : {A : Type 0} → Option A → A → A
or_default none fallback = fallback
or_default (some a) fallback = a

module _ {C L : Type 0} where
  -- opt(&cfg)
  unfoldable pub apply_option : ServerOption C L → ServerConfig C L → ServerConfig C L
  apply_option (with_solana_client client) cfg = record cfg { solana_client = client }
  apply_option (with_logger logger) cfg = record cfg { logger = logger }

  unfoldable pub apply_options : List (ServerOption C L) → ServerConfig C L → ServerConfig C L
  apply_options [] cfg = cfg
  apply_options (opt ∷ opts) cfg = apply_options opts (apply_option opt cfg)

  -- The client and the logger of `NewServer`, from a default client that may panic, which is made first;
  -- one that is made again is the same.
  unfoldable pub configure : Option C → L → List (ServerOption C L) → Option (C × L)
  configure none default_logger opts = none
  configure (some default_client) default_logger opts =
      let cfg =
        apply_options opts
          (record { solana_client = some default_client; logger = some default_logger }) in
      some (or_default cfg.solana_client default_client, or_default cfg.logger default_logger)

abbrev pub client_of : {A B R : Type 0} → (A → B) → Option (A × R) → Option B
client_of inject none = none
client_of inject (some (a, r)) = some (inject a)

module _ (fmt : Formats) (floats : Floats (Formats.Float64 fmt))
    (net : Network (Formats.Float64 fmt))
    (pkg : LruPackage (WalletSummaryEntry (Formats.Float64 fmt))) (seen : LruPackage (Unit {0}))
    (host : Host (Formats.Float64 fmt) (World fmt floats net pkg seen)) where
  -- The server that `NewServer` makes around a client, whose network is `net`.
  unfoldable pub new_site :
      Environment → World fmt floats net pkg seen → Server fmt floats net pkg seen
  new_site env w = record {
    processed = new jito_processed_cache_size;
    wallet_cache = new_wallet_summary_cache pkg env;
    wallet_seen = new_unique_wallet_lru seen env;
    wallet_unique_recent = 0;
    world = warmup_epochs fmt floats net pkg seen host w;
  }

  module _ {C L : Type 0} (url : String → String) (hostname : String → Option String)
      (inject : RpcSolanaClient floats → C) (default_logger : L) where
    -- NewServer: the client and the logger, and the first state. `none` is a panic.
    unfoldable pub new_server :
        Environment
        → Time
        → Registry
        → List (ServerOption C L)
        → World fmt floats net pkg seen
        → Option ((C × L) × Server fmt floats net pkg seen)
    new_server env now registry opts w =
        elim (configure
          (client_of inject (new_default_solana_client floats url hostname env now registry))
          default_logger opts) [ none ↦ none | some chosen ↦ some (chosen, new_site env w) ]

    -- `NewServer` panics exactly where a variable of the environment with a key is empty or missing,
    -- whatever its options say: a client that is handed to it does not help.
    pub new_server-none :
        (env : Environment) (now : Time) (registry : Registry) (opts : List (ServerOption C L))
        (w : World fmt floats net pkg seen)
        → (new_server env now registry opts w ≡ none)
          ↔ ((env.getenv "HELIUS_API_KEY" ≡ "") ⊎ (env.getenv "VALIDATORS_API_KEY" ≡ ""))
    unfolding new_server configure new_default_solana_client
    new_server-none env now registry opts w =
        let first = eq_iff (env.getenv "HELIUS_API_KEY") "" in
        let second = eq_iff (env.getenv "VALIDATORS_API_KEY") "" in
        elim (Bool-cases (env.getenv "HELIUS_API_KEY" == "")) [
          | inl empty ↦
              rw (empty, new_server, new_default_solana_client)
                ((λ h. inl (first.0 empty)), λ h. refl)
          | inr named ↦ elim (Bool-cases (env.getenv "VALIDATORS_API_KEY" == "")) [
            | inl bare ↦
                rw (named, bare, new_server, new_default_solana_client)
                  ((λ h. inr (second.0 bare)), λ h. refl)
            | inr keyed ↦
                rw (named, keyed, new_server, new_default_solana_client)
                  ((λ h. absurd (ground arith)), λ h. absurd (ground (arith, first, second)))
          ]
        ]
