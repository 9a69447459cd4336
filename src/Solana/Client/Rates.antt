-- ===== src/Solana/Client/Rates.antt =====
-- solana_client.go: the rates that `RecordValidatorXIRR` leaves for `RecentValidatorPerformances`.
use go_octopi.Base.{
  ◌+◌, ◌<◌, ◌≤◌, ◌≡◌, ◌≢◌, ◌∙◌, ap, refl, true, false, some, String, String-Eq, lookup, insert, All,
  get_elem?, arith, eq_iff, ◌==◌,
}
use go_octopi.Base.Int.{ℤ, is_pos}
use go_octopi.Base.Text.{trim_space}
use go_octopi.Base.Time.{Time}
use go_octopi.Server.Floats.{Floats}
use go_octopi.Server.WalletCache.{Environment}
use go_octopi.Solana.Client.{
  RpcSolanaClient, ensure_validator_repository, record_validator_xirr,
  recent_validator_performances,
}
use go_octopi.Solana.Names.{
  ValidatorCacheEntry, Repository, validator_cache_ttl, recent_validators, recorded, entry_or_zero,
  record_xirr,
}
use go_octopi.Solana.Names.Newest.{recent_validators-first}

module _ {F : Type 0} (floats : Floats F) (env : Environment) where
  abbrev recorded_name : String → F → Time → Repository floats → String
  recorded_name id rate t r =
      (recorded floats id rate t (entry_or_zero floats (lookup id r.cache))).name

  named :
      (id : String) (rate : F) (t : Time) (r : Repository floats)
      → id ≢ ""
      → recorded_name id rate t r ≢ ""
  named id rate t r h =
      let e = entry_or_zero floats (lookup id r.cache) in ground (arith, h, eq_iff e.name "")

  recent-some :
      (c : RpcSolanaClient floats) (r : Repository floats) (limit : ℤ) (now : Time)
      → c.validators ≡ some r
      → (recent_validator_performances floats env limit now c).0
        ≡ (recent_validators now limit r.cache).0
  unfolding recent_validator_performances ensure_validator_repository
  recent-some c r limit now there = rw (there, ensure_validator_repository) refl

  recorded-some :
      (c : RpcSolanaClient floats) (r : Repository floats) (vote : String) (rate : F) (t : Time)
      → (ensure_validator_repository floats env c).validators ≡ some r
      → (record_validator_xirr floats env vote rate t c).validators
        ≡ some (record_xirr floats vote rate t r)
  unfolding record_validator_xirr
  recorded-some c r vote rate t has = rw (has, record_validator_xirr) refl

  recorded-insert :
      (r : Repository floats) (vote : String) (rate : F) (t : Time)
      → trim_space vote ≢ ""
      → floats.is_nan rate ≡ false
      → (record_xirr floats vote rate t r).cache
        ≡ insert
            (trim_space vote)
            (recorded floats
              (trim_space vote)
              rate
              t
              (entry_or_zero floats (lookup (trim_space vote) r.cache)))
            r.cache
  unfolding record_xirr
  recorded-insert r vote rate t valid number =
      let filled : (trim_space vote == "") ≡ false = ground (arith, eq_iff (trim_space vote) "") in
      rw (number, filled) refl

  -- A client with a repository that records a rate of a validator lists it first among the recent
  -- validators, under a name, for the next 24 hours, where every rate before it is older and the rate
  -- is a number.
  pub recent_validator_performances-record_validator_xirr :
      (c : RpcSolanaClient floats) (r : Repository floats) (vote : String) (rate : F) (t now : Time)
      (limit : ℤ)
      → (ensure_validator_repository floats env c).validators ≡ some r
      → trim_space vote ≢ ""
      → floats.is_nan rate ≡ false
      → 0 < t
      → All (λ (kv : String × ValidatorCacheEntry F). kv.1.xirr_updated_at < t) r.cache
      → now ≤ t + validator_cache_ttl
      → is_pos limit ≡ true
      → (name : String) × (name ≢ "")
        × (get_elem?
              (recent_validator_performances floats env limit now
                (record_validator_xirr floats env vote rate t c)).0
              0
            ≡ some (record {
              vote_account = trim_space vote;
              name = name;
              xirr = rate;
              updated_at = t;
            }))
  recent_validator_performances-record_validator_xirr c r vote rate t now limit has valid number
        later old soon asked =
      let id = trim_space vote in
      let e = recorded floats id rate t (entry_or_zero floats (lookup id r.cache)) in
      (
        e.name,
        named id rate t r valid,
        ap (λ l. get_elem? l 0)
              (recent-some (record_validator_xirr floats env vote rate t c)
                  (record_xirr floats vote rate t r) limit now (recorded-some c r vote rate t has)
                ∙ ap (λ m. (recent_validators now limit m).0)
                    (recorded-insert r vote rate t valid number))
            ∙ recent_validators-first id e t now limit r.cache asked refl later (ground arith) old,
      )
