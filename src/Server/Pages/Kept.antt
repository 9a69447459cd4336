-- ===== src/Server/Pages/Kept.antt =====
-- server.go: what the server's cache and its pages hold, over any requests.
use go_octopi.Base.{
  ◌+◌, ◌*◌, ◌≡◌, refl, not, ◌||◌, Option, none, some, List, [], String, String-Eq, inl, inr, ◌⊎◌,
  arith, Bool-cases, Option-cases,
}
use go_octopi.Base.Fault.{Error, Result, ok, err, Result-cases}
use go_octopi.Base.Int.{pos}
use go_octopi.Base.Text.{trim_space}
use go_octopi.Base.Time.{Time, day, is_zero_time, is_after}
use go_octopi.Rewards.{Formats, RewardRow}
use go_octopi.Server.Floats.{Floats}
use go_octopi.Server.Network.{Network}
use go_octopi.Server.Pages.{
  Server, Row, get_cached_wallet_rewards, store_until, store_rewards, cache_wallet_rewards,
  wallet_rewards, priced,
}
use go_octopi.Server.Recent.{collect_recent_rewards}
use go_octopi.Server.Recent.Order.{Shown, map-Shown, collect_recent_rewards-Shown}
use go_octopi.Server.Returns.{in_fiat, apply_reward_fiat_values}
use go_octopi.Server.WalletCache.{
  LruPackage, LruLaws, WalletSummaryEntry, WalletSummaryCache, get, add,
}
use go_octopi.Server.WalletCache.Peeks.{peek_at, get-peek_at, get-found, add-peek_at}
use go_octopi.Server.Weeks.{week_floor, reward_window_start}
use go_octopi.Server.Xirr.{le}
use go_octopi.Solana.Types.{StakeAccount, EpochBoundary}

-- How a collection may end.
end_cases :
    {A C W : Type 0} (o : Option (Result A × C × W))
    → (o ≡ none)
      ⊎ ((e : Error) × (c : C) × (w : W) × (o ≡ some (err e, c, w)))
      ⊎ ((a : A) × (c : C) × (w : W) × (o ≡ some (ok a, c, w)))
end_cases none = inl refl
end_cases (some (err e, c, w)) = inr (inl (e, c, w, refl))
end_cases (some (ok a, c, w)) = inr (inr (a, c, w, refl))

-- Rows as they are shown at some time.
abbrev pub ShownOnce : {F : Type 0} → List (RewardRow F) → Type 0
ShownOnce rows = (now : Time) × Shown (reward_window_start now) (week_floor now + 7 * day) rows

module _ (fmt : Formats) (floats : Floats (Formats.Float64 fmt)) where
  in_fiat-keeps :
      (price : Formats.Float64 fmt) (r : RewardRow (Formats.Float64 fmt))
      → ((in_fiat fmt floats price r).timestamp ≡ r.timestamp)
        × ((in_fiat fmt floats price r).epoch ≡ r.epoch)
  in_fiat-keeps price r = elim (Bool-cases (floats.eq r.amount_sol_value (floats.of_int (pos 0)))) [
    | inl none_paid ↦ rw none_paid (refl, refl)
    | inr paid ↦ rw paid (refl, refl)
  ]

  pub apply-ShownOnce :
      (price : Formats.Float64 fmt) (rows : List (RewardRow (Formats.Float64 fmt)))
      → ShownOnce rows
      → ShownOnce (apply_reward_fiat_values fmt floats price rows)
  unfolding apply_reward_fiat_values
  apply-ShownOnce price rows (now, h) =
      elim (Bool-cases (le floats price (floats.of_int (pos 0)))) [
        | inl no_price ↦ rw no_price (now, h)
        | inr priced ↦ rw priced (
          now,
          map-Shown (reward_window_start now) (week_floor now + 7 * day) (in_fiat fmt floats price)
              rows (in_fiat-keeps price) h,
        )
      ]

module _ (fmt : Formats) (floats : Floats (Formats.Float64 fmt))
    (net : Network (Formats.Float64 fmt))
    (pkg : LruPackage (WalletSummaryEntry (Formats.Float64 fmt))) (seen : LruPackage (Unit {0}))
    (laws : LruLaws pkg) where
  abbrev Site : Type 0
  Site = Server fmt floats net pkg seen

  abbrev Cached : Type 0
  Cached = WalletSummaryCache pkg

  -- Every entry of the cache holds rows as they were shown at some time.
  abbrev pub Stocked : Cached → Type 0
  Stocked c =
      (k : String) (e : WalletSummaryEntry (Formats.Float64 fmt))
      → peek_at pkg c k ≡ some e
      → ShownOnce e.rewards

  get-Stocked : (c : Cached) (k : String) (t : Time) → Stocked c → Stocked (get pkg c k t).1
  get-Stocked c k t h j e p = h j e (get-peek_at pkg laws c k j t e p)

  get-ShownOnce :
      (c : Cached) (k : String) (t : Time) (rows : List (RewardRow (Formats.Float64 fmt)))
      → Stocked c
      → (get pkg c k t).0 ≡ some rows
      → ShownOnce rows
  get-ShownOnce c k t rows h hit =
      let (e, seen_at, same, fresh) = get-found pkg laws c k t rows hit in
      rw (← same) (h k e seen_at)

  add-Stocked :
      (c : Cached) (k : String) (rows : List (RewardRow (Formats.Float64 fmt))) (t : Time)
      → ShownOnce rows
      → Stocked c
      → Stocked (add pkg c k rows t)
  add-Stocked c k rows t shown h j e p = elim (add-peek_at pkg laws c k j rows t e p) [
    | inl (old, rest) ↦ h j e old
    | inr (here, stored, same) ↦ rw same shown
  ]

  store_until-Stocked :
      (address : String) (rows : List (Row fmt floats net pkg seen)) (now expiry : Time) (s : Site)
      → ShownOnce rows
      → Stocked s.wallet_cache
      → Stocked (store_until fmt floats net pkg seen address rows now expiry s).1.wallet_cache
  store_until-Stocked address rows now expiry s shown h =
      elim (Bool-cases (is_zero_time expiry || not (is_after expiry now))) [
        | inl over ↦ rw over h
        | inr good ↦ rw good (add-Stocked s.wallet_cache (trim_space address) rows expiry shown h)
      ]

  store_rewards-Stocked :
      (address : String) (rows : List (Row fmt floats net pkg seen)) (now : Time) (s : Site)
      → ShownOnce rows
      → Stocked s.wallet_cache
      → Stocked (store_rewards fmt floats net pkg seen address rows now s).1.wallet_cache
  store_rewards-Stocked address rows now s shown h =
      elim (Result-cases (net.get_current_epoch_end s.world).0) [
        | inl (e, unknown) ↦ rw (unknown, store_rewards) h
        | inr (expiry, known) ↦
            rw (known, store_rewards)
              (store_until-Stocked address rows now expiry
                (record s { world = (net.get_current_epoch_end s.world).1 }) shown h)
      ]

  cache_wallet_rewards-Stocked :
      (address : String) (rows : List (Row fmt floats net pkg seen)) (now : Time) (s : Site)
      → ShownOnce rows
      → Stocked s.wallet_cache
      → Stocked (cache_wallet_rewards fmt floats net pkg seen address rows now s).1.wallet_cache
  unfolding cache_wallet_rewards
  cache_wallet_rewards-Stocked address rows now s shown h = elim (Option-cases s.wallet_cache) [
    | inl absent ↦ rw (absent, cache_wallet_rewards) h
    | inr (c, there) ↦
        rw (there, cache_wallet_rewards) (store_rewards-Stocked address rows now s shown h)
  ]

  pub wallet_rewards-Stocked :
      (address : String) (now : Time) (accounts : List StakeAccount)
      (boundaries : List EpochBoundary) (s s' : Site) (rows : List (Row fmt floats net pkg seen))
      → Stocked s.wallet_cache
      → wallet_rewards fmt floats net pkg seen address now accounts boundaries s ≡ some (rows, s')
      → ShownOnce rows × Stocked s'.wallet_cache
  unfolding wallet_rewards get_cached_wallet_rewards
  wallet_rewards-Stocked address now accounts boundaries s s' rows h e =
      let key = trim_space address in
      let hit = get pkg s.wallet_cache key now in
      let left = get-Stocked s.wallet_cache key now h in
      elim (Option-cases hit.0) [
        | inr (found, e1) ↦
            let same : found ≡ rows = ground arith in
            let behind : hit.1 ≡ s'.wallet_cache = ground arith in
            (rw (← same) (get-ShownOnce s.wallet_cache key now found h e1), rw (← behind) left)
        | inl missed ↦
            elim (end_cases
              (collect_recent_rewards fmt floats net now accounts boundaries s.processed s.world)) [
                | inl panic ↦ absurd (ground arith)
                | inr (inl (broken, c, w, e2)) ↦
                    let same : [] ≡ rows = ground arith in
                    let behind : hit.1 ≡ s'.wallet_cache = ground arith in
                    (rw (← same) (now, (tt, tt)), rw (← behind) left)
                | inr (inr (found, c, w, e2)) ↦
                    let same : found ≡ rows = ground arith in
                    let once : ShownOnce found = (
                      now,
                      collect_recent_rewards-Shown fmt floats net now accounts boundaries
                          s.processed c s.world w found e2,
                    ) in
                    let s1 : Site = record s { wallet_cache = hit.1; processed = c; world = w } in
                    let behind : (cache_wallet_rewards fmt floats net pkg seen address found now
                          s1).1
                        ≡ s' =
                      ground arith in
                    (
                      rw (← same) once,
                      rw (← behind) (cache_wallet_rewards-Stocked address found now s1 once left),
                    )
              ]
      ]
