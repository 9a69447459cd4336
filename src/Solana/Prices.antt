-- ===== src/Solana/Prices.antt =====
-- solana_client.go: `solPriceRepository`, the price of SOL for an hour, and the last one where the source
-- of prices fails.
pub mod Kept
use go_octopi.Base.{
  ℕ, ◌-◌, ◌%◌, Bool, true, false, not, ◌&&◌, Option, none, some, List, [], ◌∷◌, String, take, last?,
  length, ltb, leb, nat_eq, if◌then◌else◌, ◌==◌, String-Eq,
}
use go_octopi.Base.Fault.{Error, plain, wrap, bad_status, Result, ok, err, wrapping, ◌>>=◌}
use go_octopi.Base.Text.{trim_space}
use go_octopi.Base.Time.{Time, day, hour}
use go_octopi.Solana.Rpc.{HttpResponse}

-- solPriceCacheEntry
pub record SolPriceCacheEntry (F : Type 0) : Type 0 where
  pub value : F
  pub stored_at : Time
  pub valid : Bool

abbrev pub sol_price_cache_ttl : ℕ
sol_price_cache_ttl = hour

-- What the repository uses of net/http, encoding/json, strconv and time, and its clock.
pub record PriceSource (F : Type 0) : Type 1 where
  pub World : Type 0
  pub now : World → Time
  -- t.Format("2006-01-02T15:04:05")
  pub format_time : Time → List ℕ
  -- http.NewRequestWithContext for a window
  pub build : List ℕ → List ℕ → Option Error
  pub send : List ℕ → List ℕ → World → Result HttpResponse × World
  -- io.ReadAll of at most 64 KB
  pub read_all : HttpResponse → Result (List ℕ)
  -- the fields average_price of the list that json.Unmarshal reads
  pub decode : List ℕ → Result (List String)
  -- strconv.ParseFloat
  pub parse_float : String → Result F
  -- strings.TrimSpace on the bytes of a body
  pub trim_body : List ℕ → List ℕ

module _ {F : Type 0} (source : PriceSource F) where
  open source use {World, now, format_time, build, send, read_all, decode, parse_float, trim_body}

  -- window
  unfoldable pub window : Time → List ℕ × List ℕ
  window t = let today = t - t % day in (format_time (today - day), format_time today)

  abbrev last_price : Option String → Result F
  last_price none = err (plain "sol price response empty")
  last_price (some price) =
      if trim_space price == ""
      then err (plain "sol price missing average_price")
      else wrapping "parse sol price" (parse_float price)

  -- `fetch` behind the reply.
  unfoldable pub read_price : HttpResponse → Result F
  read_price resp =
      if leb 300 resp.status
      then err (bad_status "sol price status" resp.status (trim_body (take 2048 resp.body)))
      else (wrapping "read sol price response" (read_all resp) >>= λ body.
          wrapping "decode sol price response" (decode body) >>= λ prices.
          last_price (last? prices))

  -- fetch
  unfoldable pub fetch : World → Result F × World
  fetch w =
      let (from, to) = window (now w) in
      elim (build from to) [
        | some e ↦ (err (wrap "build sol price request" e), w)
        | none ↦
            let (reply, w') = send from to w in
            (wrapping "sol price request" reply >>= read_price, w')
      ]

  -- cached
  unfoldable pub cached : SolPriceCacheEntry F → Time → Option F
  cached cache t =
      if cache.valid && not (ltb sol_price_cache_ttl (t - cache.stored_at))
      then some cache.value
      else none

  -- store
  unfoldable pub store : F → Time → SolPriceCacheEntry F
  store price t = record { value = price; stored_at = t; valid = true }

  -- The last price, where a fetch fails.
  abbrev or_stale : SolPriceCacheEntry F → Error → Result F
  or_stale cache e = if cache.valid then ok cache.value else err e

  -- PriceUSD, of a repository that is there.
  unfoldable pub price_usd : SolPriceCacheEntry F → World → Result F × SolPriceCacheEntry F × World
  price_usd cache w = elim (cached cache (now w)) [
    | some price ↦ (ok price, cache, w)
    | none ↦
        let (fetched, w') = fetch w in
        elim fetched [
          | ok price ↦ (ok price, store price (now w'), w')
          | err e ↦ (or_stale cache e, cache, w')
        ]
  ]
