-- ===== src/Server/WalletCache/History.antt =====
-- wallet_cache.go: a hit shows the last rewards that were stored for the wallet.
use go_octopi.Base.{
  ◌≡◌, ◌≢◌, ◌≤◌, ◌<◌, ◌||◌, Option, none, some, List, [], ◌∷◌, String, inl, inr, arith,
  if◌then◌else◌, ◌==◌, String-Eq, eq_iff,
}
use go_octopi.Base.Int.{ℤ, pos, negsuc}
use go_octopi.Base.Time.{Time, is_zero_time}
use go_octopi.Rewards.{RewardRow}
use go_octopi.Server.WalletCache.{
  LruPackage, LruLaws, WalletSummaryEntry, WalletSummaryCache, Environment, load_int_env,
  new_of_size, new_wallet_summary_cache, get, get_entry, add,
}
use go_octopi.Server.WalletCache.Peeks.{peek_at, get-peek_at, get-found, add-peek_at}

-- A call of the cache.
pub data Call (F : Type 0) : Type 0 where
  getting : String → Time → Call F
  adding : String → List (RewardRow F) → Time → Call F

module _ {F : Type 0} where
  -- The entry that the last effective `Add` of a key stored; the calls are given latest first.
  unfoldable pub latest : String → List (Call F) → Option (WalletSummaryEntry F)
  latest key [] = none
  latest key (getting k t ∷ calls) = latest key calls
  latest key (adding k rewards t ∷ calls) =
      let earlier = latest key calls in
      if (k == "") || is_zero_time t
      then earlier
      else if k == key
      then some (record { rewards = rewards; expires_at = t })
      else earlier

  module _ (pkg : LruPackage (WalletSummaryEntry F)) where
    open pkg use {Cache, peek}

    abbrev step : Call F → WalletSummaryCache pkg → WalletSummaryCache pkg
    step (getting k t) c = (get pkg c k t).1
    step (adding k rewards t) c = add pkg c k rewards t

    -- The cache behind the calls, latest first.
    unfoldable pub replay : List (Call F) → WalletSummaryCache pkg → WalletSummaryCache pkg
    replay [] c = c
    replay (call ∷ calls) c = step call (replay calls c)

    -- Every entry of the cache is the latest that was stored under its key.
    abbrev Recent : List (Call F) → WalletSummaryCache pkg → Type 0
    Recent calls c =
        (k : String) (e : WalletSummaryEntry F) → peek_at pkg c k ≡ some e → latest k calls ≡ some e

    module _ (laws : LruLaws pkg) where
      step-Recent :
          (call : Call F) (calls : List (Call F)) (c : WalletSummaryCache pkg)
          → Recent calls c
          → Recent (call ∷ calls) (step call c)
      unfolding latest
      step-Recent (getting k t) calls c h j e p = h j e (get-peek_at pkg laws c k j t e p)
      step-Recent (adding k rewards t) calls c h j e p =
          elim (add-peek_at pkg laws c k j rewards t e p) [
            | inl (old, inr skipped) ↦ rw skipped (h j e old)
            | inl (old, inl apart) ↦ ground (arith, h j e old, eq_iff k j, apart)
            | inr (here, stored, same) ↦ ground (arith, here, stored, same, eq_iff k j)
          ]

      replay-Recent :
          (env : Environment) (calls : List (Call F))
          → Recent calls (replay calls (new_wallet_summary_cache pkg env))
      unfolding replay new_wallet_summary_cache
      replay-Recent env [] k e p =
          absurd (new_empty (load_int_env env "OCTOPI_CACHE_WALLET_MAX_ENTRIES" (pos 300)) p)
        where
          new_empty : (n : ℤ) → peek_at pkg (new_of_size pkg n) k ≢ some e
          new_empty (negsuc n) q = cc
          new_empty (pos n) q = ground (arith, laws.new_empty n k)
      replay-Recent env (call ∷ calls) k e p =
          step-Recent call calls (replay calls (new_wallet_summary_cache pkg env))
            (replay-Recent env calls) k e p

      -- After any calls of a new cache, whatever it evicted, a hit shows the rewards that the latest
      -- effective `Add` of the wallet stored, and not past their expiry.
      pub get-latest :
          (env : Environment) (calls : List (Call F)) (k : String) (t : Time)
          (rows : List (RewardRow F))
          → (get pkg (replay calls (new_wallet_summary_cache pkg env)) k t).0 ≡ some rows
          → (e : WalletSummaryEntry F) × (latest k calls ≡ some e)
            × (e.rewards ≡ rows)
            × (t ≤ e.expires_at)
      get-latest env calls k t rows h =
          let (e, seen, shown, fresh) =
            get-found pkg laws (replay calls (new_wallet_summary_cache pkg env)) k t rows h in
          (e, replay-Recent env calls k e seen, shown, fresh)

      -- What was stored for a wallet, with an expiry that is not the zero time, is found until it expires.
      pub get-add :
          (c : Cache) (k : String) (rows : List (RewardRow F)) (expires_at t : Time)
          → k ≢ ""
          → 0 < expires_at
          → t ≤ expires_at
          → (get pkg (add pkg (some c) k rows expires_at) k t).0 ≡ some rows
      unfolding get add get_entry
      get-add c k rows expires_at t named timed fresh =
          let entry : WalletSummaryEntry F = record { rewards = rows; expires_at = expires_at } in
          ground (arith, eq_iff k "", laws.add_same k entry c, laws.get_finds k (pkg.add k entry c))
