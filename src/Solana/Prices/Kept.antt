-- ===== src/Solana/Prices/Kept.antt =====
-- solana_client.go: a repository that has had a price has one from then on.
use go_octopi.Base.{◌-◌, ◌≤◌, ◌≡◌, true, List, [], ◌∷◌}
use go_octopi.Base.Fault.{Error, ok, err}
use go_octopi.Base.Time.{Time, hour}
use go_octopi.Solana.Prices.{SolPriceCacheEntry, PriceSource, fetch, price_usd}

module _ {F : Type 0} (source : PriceSource F) where
  open source use {World, now}

  -- Where a price comes from: it was stored no more than an hour ago, it has just been fetched, or it was
  -- stored and a fetch failed.
  pub data PriceFrom (cache : SolPriceCacheEntry F) (w : World) (price : F) : Type 0 where
    fresh :
        cache.valid ≡ true
        → now w - cache.stored_at ≤ hour
        → price ≡ cache.value
        → PriceFrom cache w price
    fetched : (fetch source w).0 ≡ ok price → PriceFrom cache w price
    stale :
        (e : Error)
        → (fetch source w).0 ≡ err e
        → cache.valid ≡ true
        → price ≡ cache.value
        → PriceFrom cache w price

  -- Each call in the worlds gives a price that is fresh, fetched or stale.
  abbrev pub AllPriced : SolPriceCacheEntry F → List World → Type 0
  AllPriced cache [] = Unit
  AllPriced cache (w ∷ ws) =
      ((price : F) × ((price_usd source cache w).0 ≡ ok price) × PriceFrom cache w price)
      × AllPriced (price_usd source cache w).1 ws
