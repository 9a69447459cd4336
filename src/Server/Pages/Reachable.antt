-- ===== src/Server/Pages/Reachable.antt =====
-- server.go: the pages of a server that has served any requests since its start.
use go_octopi.Base.{
  ℕ, ◌≡◌, refl, sym, false, ◌&&◌, Option, none, some, List, String, String-Eq, ◌==◌, inl, inr,
  arith, length, ltb, Bool-cases, Option-cases,
}
use go_octopi.Base.Fault.{Result-cases}
use go_octopi.Base.Int.{ℤ, pos, negsuc}
use go_octopi.Base.Time.{Time}
use go_octopi.Rewards.{Formats, RewardRow}
use go_octopi.Server.Address.{trim_prefix, matches_address}
use go_octopi.Server.Floats.{Floats}
use go_octopi.Server.Network.{Network}
use go_octopi.Server.Pages.{
  Response, not_found, http_error, demo_page, wallet_page, Host, Server, World,
  record_unique_wallet, wallet_rewards, priced, finish, show_wallet, serve_wallet, handle_wallet,
  or_empty, to_option,
}
use go_octopi.Server.Pages.Kept.{ShownOnce, apply-ShownOnce, Stocked, wallet_rewards-Stocked}
use go_octopi.Server.Returns.{build_wallet_data}
use go_octopi.Server.WalletCache.{
  LruPackage, LruLaws, WalletSummaryEntry, Environment, load_int_env, new_of_size,
  new_wallet_summary_cache,
}
use go_octopi.Server.Weeks.{reward_window_start}
use go_octopi.Solana.Types.{StakeAccount, EpochBoundary}

-- A page of a wallet is that of the address, and its rows stand as they were shown at some time.
abbrev pub PageOf : {F : Type 0} → String → Response F → Type 0
PageOf address not_found = Unit
PageOf address (http_error text status) = Unit
PageOf address demo_page = Unit
PageOf address (wallet_page view) = (view.address ≡ address) × ShownOnce view.rewards

module _ (fmt : Formats) (floats : Floats (Formats.Float64 fmt))
    (net : Network (Formats.Float64 fmt))
    (pkg : LruPackage (WalletSummaryEntry (Formats.Float64 fmt))) (seen : LruPackage (Unit {0}))
    (laws : LruLaws pkg) (host : Host (Formats.Float64 fmt) (World fmt floats net pkg seen)) where
  abbrev Site : Type 0
  Site = Server fmt floats net pkg seen

  abbrev Stock : Site → Type 0
  Stock s = Stocked fmt floats net pkg seen laws s.wallet_cache

  priced-ShownOnce :
      (price : Option (Formats.Float64 fmt)) (rows : List (RewardRow (Formats.Float64 fmt)))
      → ShownOnce rows
      → ShownOnce (priced fmt floats net pkg seen host price rows)
  priced-ShownOnce none rows h = h
  priced-ShownOnce (some price) rows h =
      elim (Bool-cases (floats.lt (floats.of_int (pos 0)) price && ltb 0 (length rows))) [
        | inl known ↦ rw known (apply-ShownOnce fmt floats price rows h)
        | inr unknown ↦ rw unknown h
      ]

  finish-PageOf :
      (address : String) (now : Time) (lamports : ℕ) (accounts : List StakeAccount)
      (bounds : List EpochBoundary) (rewards : List (RewardRow (Formats.Float64 fmt))) (s : Site)
      → ShownOnce rewards
      → PageOf address
          (finish fmt floats net pkg seen host address now lamports accounts bounds rewards s).0
        × ((finish fmt floats net pkg seen host address now lamports accounts bounds rewards
              s).1.wallet_cache
            ≡ s.wallet_cache)
  unfolding finish build_wallet_data
  finish-PageOf address now lamports accounts bounds rewards s h =
      ((refl, priced-ShownOnce (to_option (net.get_sol_price s.world).0) rewards h), refl)

  show_wallet-PageOf :
      (address : String) (now : Time) (lamports : ℕ) (s s' : Site)
      (r : Response (Formats.Float64 fmt))
      → Stock s
      → show_wallet fmt floats net pkg seen host address now lamports s ≡ some (r, s')
      → PageOf address r × Stock s'
  unfolding show_wallet
  show_wallet-PageOf address now lamports s s' r h e =
      let (listed, w1) = net.list_stake_accounts address s.world in
      let (bounds, w2) = net.get_epoch_boundaries (reward_window_start now) w1 in
      let before : Site = record s { world = w2 } in
      elim (Option-cases (
        wallet_rewards fmt floats net pkg seen address now (or_empty listed) (or_empty bounds)
          before)) [
            | inl panic ↦ absurd (ground arith)
            | inr ((rewards, s1), e1) ↦
                let (shown, stock) =
                  wallet_rewards-Stocked fmt floats net pkg seen laws address now (or_empty listed)
                    (or_empty bounds) before s1 rewards h e1 in
                let (page, kept) =
                  finish-PageOf address now lamports (or_empty listed) (or_empty bounds) rewards s1
                    shown in
                let at_page : (finish fmt floats net pkg seen host address now lamports
                      (or_empty listed) (or_empty bounds) rewards s1).0
                    ≡ r =
                  ground arith in
                let at_state : (finish fmt floats net pkg seen host address now lamports
                      (or_empty listed) (or_empty bounds) rewards s1).1
                    ≡ s' =
                  ground arith in
                (rw (← at_page) page, rw (← at_state, kept) stock)
          ]

  record_unique_wallet-keeps :
      (address : String) (s : Site)
      → (record_unique_wallet fmt floats net pkg seen address s).wallet_cache ≡ s.wallet_cache
  unfolding record_unique_wallet
  record_unique_wallet-keeps address s = elim (Option-cases s.wallet_seen) [
    | inl absent ↦ rw (absent, record_unique_wallet) refl
    | inr (c, there) ↦ elim (Bool-cases (address == "")) [
      | inl empty ↦ rw (there, empty, record_unique_wallet) refl
      | inr named ↦ rw (there, named, record_unique_wallet) refl
    ]
  ]

  serve_wallet-PageOf :
      (address : String) (s s' : Site) (r : Response (Formats.Float64 fmt))
      → Stock s
      → serve_wallet fmt floats net pkg seen host address s ≡ some (r, s')
      → PageOf address r × Stock s'
  unfolding serve_wallet
  serve_wallet-PageOf address s s' r h e =
      let s1 = record_unique_wallet fmt floats net pkg seen address s in
      let (balance, w) = net.get_balance address s1.world in
      let stock : Stock s1 = rw (record_unique_wallet-keeps address s) h in
      elim (Result-cases balance) [
        | inl (broken, fails) ↦
            let answer : http_error "failed to fetch wallet data" 502 ≡ r = ground arith in
            let behind : s1.wallet_cache ≡ s'.wallet_cache = ground arith in
            (rw (← answer) tt, rw (← behind) stock)
        | inr (lamports, known) ↦
            show_wallet-PageOf address (host.clock s1.world) lamports (record s1 { world = w }) s' r
              stock (ground arith)
      ]

  -- A state that the server can be in: after its start, when the network has moved on, and behind a
  -- request that did not panic.
  pub data Reachable : Site → Type 0 where
    started :
        (env : Environment) (s : Site)
        → s.wallet_cache ≡ new_wallet_summary_cache pkg env
        → Reachable s
    moved :
        {s : Site} (w : World fmt floats net pkg seen)
        → Reachable s
        → Reachable (record s { world = w })
    served :
        {s s' : Site} (path : String) (r : Response (Formats.Float64 fmt))
        → Reachable s
        → handle_wallet fmt floats net pkg seen host path s ≡ some (r, s')
        → Reachable s'

  -- An answer that changes nothing.
  same-PageOf :
      (address : String) (answer r : Response (Formats.Float64 fmt)) (s s' : Site)
      → PageOf address answer
      → Stock s
      → ◌≡◌ {A = Option (Response (Formats.Float64 fmt) × Site)} (some (answer, s)) (some (r, s'))
      → PageOf address r × Stock s' × (matches_address address ≡ false → s' ≡ s)
  same-PageOf address answer r s s' page h e =
      let at_page : answer ≡ r = cc in
      let at_state : s ≡ s' = cc in (rw (← at_page) page, rw (← at_state) h, λ out. sym at_state)

  step-PageOf :
      (path : String) (s s' : Site) (r : Response (Formats.Float64 fmt))
      → Stock s
      → handle_wallet fmt floats net pkg seen host path s ≡ some (r, s')
      → PageOf (trim_prefix path "/wallet/") r
        × Stock s'
        × (matches_address (trim_prefix path "/wallet/") ≡ false → s' ≡ s)
  unfolding handle_wallet
  step-PageOf path s s' r h e =
      let address = trim_prefix path "/wallet/" in
      elim (Bool-cases (address == "")) [
        | inl empty ↦ same-PageOf address not_found r s s' tt h (rw (empty, handle_wallet) at e)
        | inr named ↦ elim (Bool-cases (address == "demo")) [
          | inl demo ↦
              same-PageOf address demo_page r s s' tt h (rw (named, demo, handle_wallet) at e)
          | inr other ↦ elim (Bool-cases (matches_address address)) [
            | inr wrong ↦
                same-PageOf address (http_error "invalid Solana address" 400) r s s' tt h
                  (rw (named, other, wrong, handle_wallet) at e)
            | inl good ↦
                let (page, stock) =
                  serve_wallet-PageOf address s s' r h
                    (rw (named, other, good, handle_wallet) at e) in
                (page, stock, λ wrong. absurd (ground arith))
          ]
        ]
      ]

  Reachable-Stocked : (s : Site) → Reachable s → Stock s
  unfolding new_wallet_summary_cache
  Reachable-Stocked s (started env _ fresh) =
      rw fresh (of_size (load_int_env env "OCTOPI_CACHE_WALLET_MAX_ENTRIES" (pos 300)))
    where
      of_size : (n : ℤ) → Stocked fmt floats net pkg seen laws (new_of_size pkg n)
      of_size (negsuc n) k e p = absurd (ground arith)
      of_size (pos n) k e p = absurd (ground (arith, laws.new_empty n k))
  Reachable-Stocked s (moved w before) = Reachable-Stocked _ before
  Reachable-Stocked s (served {s = t} path r before e) =
      (step-PageOf path t s r (Reachable-Stocked t before) e).1

  -- Whatever a server has served since its start, a page of a wallet is that of the address in the path,
  -- and its rows, from the cache or not, are such as a collection shows at some time: in its window,
  -- none with the zero time, newest first. A path without a well-formed address changes nothing.
  pub handle_wallet-PageOf :
      (path : String) (s s' : Site) (r : Response (Formats.Float64 fmt))
      → Reachable s
      → handle_wallet fmt floats net pkg seen host path s ≡ some (r, s')
      → PageOf (trim_prefix path "/wallet/") r
        × (matches_address (trim_prefix path "/wallet/") ≡ false → s' ≡ s)
  handle_wallet-PageOf path s s' r reached e =
      let (page, stock, unchanged) = step-PageOf path s s' r (Reachable-Stocked s reached) e in
      (page, unchanged)
