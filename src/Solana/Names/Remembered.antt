-- ===== src/Solana/Names/Remembered.antt =====
-- solana_client.go: what `recordXIRR` leaves for `LookupName`.
use go_octopi.Base.{
  ◌+◌, ◌≤◌, ◌≡◌, ◌≢◌, refl, false, none, some, String, String-Eq, Dict, lookup, insert,
  lookup-insert, inl, inr, arith, ◌==◌, eq_iff, Bool-cases,
}
use go_octopi.Base.Fault.{ok}
use go_octopi.Base.Text.{trim_space}
use go_octopi.Base.Time.{Time, is_after}
use go_octopi.Server.Floats.{Floats}
use go_octopi.Solana.Names.{
  ValidatorCacheEntry, NameSource, Repository, validator_cache_ttl, cached, record_xirr,
}
use go_octopi.Solana.Names.Lookup.{lookup_name}

module _ {F : Type 0} (floats : Floats F) where
  cached-some :
      (id : String) (t : Time) (r : Repository floats) (e : ValidatorCacheEntry F)
      → lookup id r.cache ≡ some e
      → t ≤ e.expires_at
      → ((cached floats id t r).0 ≡ some e.name) × ((cached floats id t r).1 ≡ r)
  unfolding cached
  cached-some id t r e found alive =
      let still : is_after t e.expires_at ≡ false = ground arith in
      (rw (found, still, cached) refl, rw (found, still, cached) refl)

  lookup-same :
      (id : String) (e : ValidatorCacheEntry F) (m : Dict String (ValidatorCacheEntry F))
      → lookup id (insert id e m) ≡ some e
  lookup-same id e m = ground (arith, lookup-insert id id e m, eq_iff id id)

  lookup-record_xirr :
      (account : String) (value : F) (now : Time) (r : Repository floats)
      → trim_space account ≢ ""
      → floats.is_nan value ≡ false
      → lookup (trim_space account) r.cache ≡ none
      → lookup (trim_space account) (record_xirr floats account value now r).cache
        ≡ some (record {
          name = trim_space account;
          xirr = value;
          xirr_updated_at = now;
          expires_at = now + validator_cache_ttl;
        })
  unfolding record_xirr
  lookup-record_xirr account value now r named number missing =
      elim (Bool-cases (trim_space account == "")) [
        | inl empty ↦ absurd (named ((eq_iff (trim_space account) "").0 empty))
        | inr here ↦
            rw (here, number, missing, record_xirr)
              (lookup-same (trim_space account)
                (record {
                  name = trim_space account;
                  xirr = value;
                  xirr_updated_at = now;
                  expires_at = now + validator_cache_ttl;
                })
                r.cache)
      ]

  -- Where a validator has no name in the cache, a rate that is recorded for it makes its account its name:
  -- for a day `LookupName` answers with the account and asks no one.
  pub lookup_name-record_xirr :
      (source : NameSource) (account : String) (value : F) (now : Time) (r : Repository floats)
      (w : NameSource.World source)
      → trim_space account ≢ ""
      → floats.is_nan value ≡ false
      → lookup (trim_space account) r.cache ≡ none
      → source.now w ≤ now + validator_cache_ttl
      → lookup_name floats source account (record_xirr floats account value now r) w
        ≡ (ok (trim_space account), record_xirr floats account value now r, w)
  unfolding lookup_name
  lookup_name-record_xirr source account value now r w named number missing fresh =
      let entry = lookup-record_xirr account value now r named number missing in
      let (hit, kept) =
        cached-some (trim_space account) (source.now w) (record_xirr floats account value now r) _
          entry fresh in
      elim (Bool-cases (trim_space account == "")) [
        | inl empty ↦ absurd (named ((eq_iff (trim_space account) "").0 empty))
        | inr here ↦ rw (here, hit, kept, lookup_name) refl
      ]
