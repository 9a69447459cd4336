-- ===== src/Solana/Names/Ranking.antt =====
-- solana_client.go: the list of `recentValidators`.
use go_octopi.Base.{
  ℕ, ◌≤◌, ◌<◌, ◌≡◌, ◌≢◌, ◌⊎◌, refl, List, [], ◌∷◌, String, Dict, take, length, length-take, inl,
  inr, arith, All, All-map, In, Bool-cases,
}
use go_octopi.Base.Int.{ℤ, is_pos, to_ℕ}
use go_octopi.Base.Sort.{sort, sort-Sorted, sort-All}
use go_octopi.Base.Time.{Time, is_zero_time}
use go_octopi.Solana.Names.{
  ValidatorCacheEntry, ValidatorPerformance, ranks_before, is_expired, performance_of, scan,
  recent_validators,
}
use go_octopi.Solana.Names.Order.{
  not_positive, ranks_before_asym, ranks_before_trans, Sorted-take, take-All, LatestFirst,
  Sorted-LatestFirst, sort-In, take-In,
}

module _ {F : Type 0} where
  -- The performance shows the name and the rate of an entry of the cache.
  abbrev pub Shows : String → ValidatorCacheEntry F → ValidatorPerformance F → Type 0
  Shows vote e p =
      (p.vote_account ≡ vote)
      × (p.name ≡ e.name)
      × (p.xirr ≡ e.xirr)
      × (p.updated_at ≡ e.xirr_updated_at)

  -- The performance is that of an entry of the cache with a rate, whose time has not passed.
  abbrev pub Current : Time → Dict String (ValidatorCacheEntry F) → ValidatorPerformance F → Type 0
  Current now cache p =
      (vote : String) × (e : ValidatorCacheEntry F) × In (vote, e) cache
      × (e.xirr_updated_at ≢ 0)
      × ((e.expires_at ≡ 0) ⊎ (now ≤ e.expires_at))
      × Shows vote e p

  -- An entry with no rate, or whose time has passed.
  abbrev pub Stale : Time → ValidatorCacheEntry F → Type 0
  Stale now e = (e.xirr_updated_at ≡ 0) ⊎ ((0 < e.expires_at) × (e.expires_at < now))

  -- An entry that is stale, or shown, or not later than the ones shown where these are `limit`.
  abbrev pub Placed :
      Time → ℕ → List (ValidatorPerformance F) → String × ValidatorCacheEntry F → Type 0
  Placed now limit stats (vote, e) =
      Stale now e
      ⊎ (((p : ValidatorPerformance F) × In p stats × Shows vote e p)
          ⊎ ((length stats ≡ limit) × All (λ p. e.xirr_updated_at ≤ p.updated_at) stats))

  Current-later :
      (now : Time) (entry : String × ValidatorCacheEntry F)
      (cache : Dict String (ValidatorCacheEntry F)) (p : ValidatorPerformance F)
      → Current now cache p
      → Current now (entry ∷ cache) p
  Current-later now entry cache p (vote, e, i, rated, alive, same) =
      (vote, e, inr i, rated, alive, same)

  scan-Current :
      (now : Time) (cache : Dict String (ValidatorCacheEntry F))
      → All (Current now cache) (scan now cache).0
  unfolding scan
  scan-Current now [] = tt
  scan-Current now ((vote, e) ∷ cache) =
      let later =
        All-map _ _ (scan now cache).0 (Current-later now (vote, e) cache)
          (scan-Current now cache) in
      elim (Bool-cases (is_zero_time e.xirr_updated_at)) [
        | inl unrated ↦ rw unrated later
        | inr rated ↦ elim (Bool-cases (is_expired now e)) [
          | inl gone ↦ rw (rated, gone) later
          | inr alive ↦
              let left : (e.expires_at ≡ 0) ⊎ (now ≤ e.expires_at) = ground arith in
              let is_rated : e.xirr_updated_at ≢ 0 = ground arith in
              rw (rated, alive)
                ((vote, e, inl refl, is_rated, left, (refl, refl, refl, refl)), later)
        ]
      ]

  -- An entry that is stale, or listed.
  abbrev Scanned : Time → List (ValidatorPerformance F) → String × ValidatorCacheEntry F → Type 0
  Scanned now found kv = Stale now kv.1 ⊎ In (performance_of kv.0 kv.1) found

  Scanned-later :
      (now : Time) (p : ValidatorPerformance F) (found : List (ValidatorPerformance F))
      (kv : String × ValidatorCacheEntry F)
      → Scanned now found kv
      → Scanned now (p ∷ found) kv
  Scanned-later now p found kv (inl stale) = inl stale
  Scanned-later now p found kv (inr i) = inr (inr i)

  All-Scanned :
      (now : Time) (found other : List (ValidatorPerformance F))
      (cache : Dict String (ValidatorCacheEntry F))
      → other ≡ found
      → All (Scanned now found) cache
      → All (Scanned now other) cache
  All-Scanned now found other cache same h = rw same h

  scan-Scanned :
      (now : Time) (cache : Dict String (ValidatorCacheEntry F))
      → All (Scanned now (scan now cache).0) cache
  unfolding scan
  scan-Scanned now [] = tt
  scan-Scanned now ((vote, e) ∷ cache) =
      let rest = scan-Scanned now cache in
      let found = (scan now cache).0 in
      let here = performance_of vote e in
      let all = (scan now ((vote, e) ∷ cache)).0 in
      elim (Bool-cases (is_zero_time e.xirr_updated_at)) [
        | inl unrated ↦
            let stale : Stale now e = inl (ground arith) in
            All-Scanned now found all ((vote, e) ∷ cache) (rw unrated refl) (inl stale, rest)
        | inr rated ↦ elim (Bool-cases (is_expired now e)) [
          | inl gone ↦
              let stale : Stale now e = inr (ground arith) in
              All-Scanned now found all ((vote, e) ∷ cache) (rw (rated, gone) refl)
                (inl stale, rest)
          | inr alive ↦
              All-Scanned now (here ∷ found) all ((vote, e) ∷ cache) (rw (rated, alive) refl)
                (inr (inl refl), All-map _ _ cache (Scanned-later now here found) rest)
        ]
      ]

  Scanned-Placed :
      (now : Time) (n : ℕ) (all : List (ValidatorPerformance F))
      (kv : String × ValidatorCacheEntry F)
      → LatestFirst (sort ranks_before all)
      → Scanned now all kv
      → Placed now n (take n (sort ranks_before all)) kv
  Scanned-Placed now n all (vote, e) h (inl stale) = inl stale
  Scanned-Placed now n all (vote, e) h (inr i) =
      let p = performance_of vote e in
      elim (take-In n p (sort ranks_before all) h (sort-In p all i)) [
        | inl kept ↦ inr (inl (p, kept, (refl, refl, refl, refl)))
        | inr cut ↦ inr (inr cut)
      ]

  Placed-none :
      (now : Time) (cache : Dict String (ValidatorCacheEntry F)) → All (Placed now 0 []) cache
  Placed-none now [] = tt
  Placed-none now ((vote, e) ∷ cache) = (inr (inr (refl, tt)), Placed-none now cache)

  -- The ranking of a cache at a time: at most `limit` performances, the latest first and those of one time
  -- by their accounts, each of an entry with a rate whose time has not passed; and each entry of the cache
  -- is stale, or shown, or not later than the `limit` that are shown.
  abbrev pub Ranking :
      ℕ → Time → Dict String (ValidatorCacheEntry F) → List (ValidatorPerformance F) → Type 0
  Ranking limit now cache stats =
      LatestFirst stats
      × All (Current now cache) stats
      × (length stats ≤ limit)
      × All (Placed now limit stats) cache

  -- `recentValidators` gives the ranking of its cache, of none where the limit is not positive.
  pub recent_validators-Ranking :
      (now : Time) (limit : ℤ) (cache : Dict String (ValidatorCacheEntry F))
      → Ranking (to_ℕ limit) now cache (recent_validators now limit cache).0
  unfolding recent_validators
  recent_validators-Ranking now limit cache = elim (Bool-cases (is_pos limit)) [
    | inr none_asked ↦
        let nothing : to_ℕ limit ≡ 0 = not_positive limit none_asked in
        rw (none_asked, nothing) (tt, tt, omega arith, Placed-none now cache)
    | inl asked ↦
        let all = (scan now cache).0 in
        let n = to_ℕ limit in
        let sorted = sort-Sorted ranks_before ranks_before_asym ranks_before_trans all in
        rw asked (
          Sorted-LatestFirst (take n (sort ranks_before all))
              (Sorted-take n (sort ranks_before all) sorted),
          take-All (Current now cache) n (sort ranks_before all)
              (sort-All ranks_before (Current now cache) all (scan-Current now cache)),
          omega (arith, length-take n (sort ranks_before all)),
          All-map _ _ cache
              (λ kv h.
                Scanned-Placed now n all kv (Sorted-LatestFirst (sort ranks_before all) sorted) h)
              (scan-Scanned now cache),
        )
  ]
