-- ===== src/Server/Pages.antt =====
-- server.go: the server's state, and `handleWallet`, `handleHome` and `warmupEpochs`. The pointers to the
-- server, its client and its logger are there, as `NewServer` sets them; a call of the client that fails
-- gives nothing beside its error.
pub mod Kept
pub mod Reachable
use go_octopi.Base.{
  ℕ, Bool, true, false, not, ◌&&◌, ◌||◌, Option, none, some, List, [], ◌∷◌, ◌++◌, String, length,
  take, ltb, leb, nat_eq, if◌then◌else◌, ◌==◌, String-Eq,
}
use go_octopi.Base.Fault.{Error, plain, Result, ok, err}
use go_octopi.Base.Int.{ℤ, pos, negsuc}
use go_octopi.Base.Text.{trim_space}
use go_octopi.Base.Time.{Time, is_zero_time, is_after}
use go_octopi.Base.Word.{add64}
use go_octopi.Rewards.{Formats, RewardRow}
use go_octopi.Server.Address.{trim_prefix, matches_address}
use go_octopi.Server.Chart.{WalletChart, reward_chart_payload}
use go_octopi.Server.Floats.{Floats}
use go_octopi.Server.Network.{Network}
use go_octopi.Server.Recent.{collect_recent_rewards}
use go_octopi.Server.Returns.{
  WalletData, build_wallet_data, build_wallet_metrics, apply_reward_fiat_values,
}
use go_octopi.Server.Shares.{record_validator_xirrs}
use go_octopi.Server.WalletCache.{
  LruPackage, WalletSummaryEntry, WalletSummaryCache, Environment, load_int_env, get, add,
}
use go_octopi.Server.Weeks.{reward_window_start}
use go_octopi.Solana.Types.{StakeAccount, EpochBoundary, EpochInfo}
use go_octopi.Tips.Client.{Client}
use go_octopi.Tips.Select.{Processed}

-- What a handler answers. Server/Site fills the pages.
pub data Response (F : Type 0) : Type 0 where
  not_found : Response F
  -- http.Error
  http_error : String → ℕ → Response F
  demo_page : Response F
  wallet_page : WalletData F → Response F

-- The clock, and the texts that time and encoding/json make.
pub record Host (F W : Type 0) : Type 0 where
  -- time.Now().UTC()
  pub clock : W → Time
  -- t.Format("02 Jan 2006 15:04 UTC")
  pub format_updated : Time → List ℕ
  -- json.Marshal of a chart
  pub marshal_chart : WalletChart F → Result (List ℕ)

abbrev pub or_empty : {A : Type 0} → Result (List A) → List A
or_empty (err e) = []
or_empty (ok xs) = xs

abbrev pub to_option : {A : Type 0} → Result A → Option A
to_option (err e) = none
to_option (ok a) = some a

-- delegatedLamports += account.DelegatedLamports, over the accounts
unfoldable pub total_delegated : ℕ → List StakeAccount → ℕ
total_delegated total [] = total
total_delegated total (account ∷ accounts) =
    total_delegated (add64 total account.delegated_lamports) accounts

module _ (seen : LruPackage (Unit {0})) where
  abbrev new_seen : ℤ → Option (LruPackage.Cache seen)
  new_seen (negsuc n) = none
  new_seen (pos n) = if nat_eq n 0 then none else some (seen.new n)

  -- newUniqueWalletLRU
  unfoldable pub new_unique_wallet_lru : Environment → Option (LruPackage.Cache seen)
  unfolding load_int_env
  new_unique_wallet_lru env = new_seen (load_int_env env "OCTOPI_METRICS_WALLET_LRU_CAP" (pos 1000))

module _ (fmt : Formats) (floats : Floats (Formats.Float64 fmt))
    (net : Network (Formats.Float64 fmt))
    (pkg : LruPackage (WalletSummaryEntry (Formats.Float64 fmt)))
    (seen : LruPackage (Unit {0})) where
  open fmt use {Float64}
  open net use {
    tips, get_balance, list_stake_accounts, get_epoch_boundaries, get_current_epoch_end,
    get_epoch_info, get_sol_price,
  }

  abbrev pub World : Type 0
  World = Client.World tips

  abbrev pub Row : Type 0
  Row = RewardRow Float64

  -- A `server`, with the gauge `walletUniqueRecent` and the network.
  pub record Server : Type 0 where
    pub processed : Processed
    pub wallet_cache : WalletSummaryCache pkg
    pub wallet_seen : Option (LruPackage.Cache seen)
    pub wallet_unique_recent : ℕ
    pub world : World

  -- recordUniqueWallet
  unfoldable pub record_unique_wallet : String → Server → Server
  record_unique_wallet address s = elim s.wallet_seen [
    | none ↦ s
    | some c ↦
        if address == ""
        then s
        else (let c' = seen.add address tt c in
            record s { wallet_seen = some c'; wallet_unique_recent = seen.len c' })
  ]

  -- getCachedWalletRewards
  unfoldable pub get_cached_wallet_rewards : String → Time → Server → Option (List Row) × Server
  get_cached_wallet_rewards address now s =
      let (found, c) = get pkg s.wallet_cache (trim_space address) now in
      (found, record s { wallet_cache = c })

  abbrev pub store_until : String → List Row → Time → Time → Server → Result (Unit {0}) × Server
  store_until address rows now expiry s =
      if is_zero_time expiry || not (is_after expiry now)
      then (err (plain "invalid epoch expiry"), s)
      else (
        ok tt,
        record s { wallet_cache = add pkg s.wallet_cache (trim_space address) rows expiry },
      )

  -- cacheWalletRewards, for a cache that is there.
  abbrev pub store_rewards : String → List Row → Time → Server → Result (Unit {0}) × Server
  store_rewards address rows now s =
      let (reply, w) = get_current_epoch_end s.world in
      elim reply [
        | err e ↦ (err e, record s { world = w })
        | ok expiry ↦ store_until address rows now expiry (record s { world = w })
      ]

  -- cacheWalletRewards
  unfoldable pub cache_wallet_rewards :
      String → List Row → Time → Server → Result (Unit {0}) × Server
  cache_wallet_rewards address rows now s = elim s.wallet_cache [
    | none ↦ (ok tt, s)
    | some c ↦ store_rewards address rows now s
  ]

  -- The rewards of `handleWallet`: those of the cache, or those that are collected; none on an error.
  -- `none` is a panic.
  unfoldable pub wallet_rewards :
      String → Time → List StakeAccount → List EpochBoundary → Server → Option (List Row × Server)
  wallet_rewards address now accounts boundaries s =
      let (found, s1) = get_cached_wallet_rewards address now s in
      elim found [
        | some rows ↦ some (rows, s1)
        | none ↦
            elim (collect_recent_rewards fmt floats net now accounts boundaries s1.processed
              s1.world) [
                | none ↦ none
                | some (err e, c, w) ↦ some ([], record s1 { processed = c; world = w })
                | some (ok rows, c, w) ↦ some (
                  rows,
                  (cache_wallet_rewards address rows now
                      (record s1 { processed = c; world = w })).1,
                )
              ]
      ]

  module _ (host : Host Float64 World) where
    open host use {clock, format_updated, marshal_chart}

    -- The rows that the page shows: `applyRewardFiatValues` where there is a price above 0.
    abbrev pub priced : Option Float64 → List Row → List Row
    priced none rows = rows
    priced (some price) rows =
        if floats.lt (floats.of_int (pos 0)) price && ltb 0 (length rows)
        then apply_reward_fiat_values fmt floats price rows
        else rows

    -- buildRewardChartJSON
    abbrev pub build_reward_chart_json : Time → List Row → Result (List ℕ)
    build_reward_chart_json now rewards =
        marshal_chart (reward_chart_payload fmt floats now rewards)

    -- The end of `handleWallet`, behind the rewards.
    unfoldable pub finish :
        String
        → Time
        → ℕ
        → List StakeAccount
        → List EpochBoundary
        → List Row
        → Server
        → Response Float64 × Server
    finish address now lamports accounts boundaries rewards s =
        let (price_reply, w1) = get_sol_price s.world in
        let price = to_option price_reply in
        let view =
          build_wallet_data fmt floats (format_updated (clock w1)) address lamports
            (total_delegated 0 accounts) price in
        let (info_reply, w2) = get_epoch_info w1 in
        let info = to_option info_reply in
        let metrics =
          build_wallet_metrics fmt floats now view.delegated_sol rewards boundaries info price in
        let shown = priced price rewards in
        let w3 =
          if ltb 0 (length accounts) && ltb 0 (length shown)
          then record_validator_xirrs floats net now accounts shown boundaries info w2
          else w2 in
        let chart = or_empty (build_reward_chart_json now shown) in
        (
          wallet_page (record view { metrics = metrics; rewards = shown; chart_json = chart }),
          record s { world = w3 },
        )

    -- `handleWallet` behind the balance.
    unfoldable pub show_wallet : String → Time → ℕ → Server → Option (Response Float64 × Server)
    show_wallet address now lamports s =
        let (accounts_reply, w1) = list_stake_accounts address s.world in
        let accounts = or_empty accounts_reply in
        let (boundaries_reply, w2) = get_epoch_boundaries (reward_window_start now) w1 in
        let boundaries = or_empty boundaries_reply in
        elim (wallet_rewards address now accounts boundaries (record s { world = w2 })) [
          | none ↦ none
          | some (rewards, s') ↦ some (finish address now lamports accounts boundaries rewards s')
        ]

    -- `handleWallet` for an address that the pattern matches.
    unfoldable pub serve_wallet : String → Server → Option (Response Float64 × Server)
    serve_wallet address s0 =
        let s = record_unique_wallet address s0 in
        let now = clock s.world in
        let (balance, w) = get_balance address s.world in
        elim balance [
          | err e ↦ some (http_error "failed to fetch wallet data" 502, record s { world = w })
          | ok lamports ↦ show_wallet address now lamports (record s { world = w })
        ]

    -- handleWallet, on the path of a request. `none` is a panic.
    unfoldable pub handle_wallet : String → Server → Option (Response Float64 × Server)
    handle_wallet path s =
        let address = trim_prefix path "/wallet/" in
        elim (address == "") [
          | true ↦ some (not_found, s)
          | false ↦ elim (address == "demo") [
            | true ↦ some (demo_page, s)
            | false ↦ elim (matches_address address) [
              | false ↦ some (http_error "invalid Solana address" 400, s)
              | true ↦ serve_wallet address s
            ]
          ]
        ]

    -- warmupEpochs: the boundaries are fetched, and the client keeps them.
    unfoldable pub warmup_epochs : World → World
    warmup_epochs w = (get_epoch_boundaries (reward_window_start (clock w)) w).1
