-- ===== src/Server/WalletCache/Peeks.antt =====
-- wallet_cache.go: what the calls of the cache do to the entries that it holds.
use go_octopi.Base.{
  ◌≡◌, ◌≢◌, ◌≤◌, true, false, ◌||◌, Option, none, some, List, String, inl, inr, ◌⊎◌, arith, ◌==◌,
  String-Eq, eq_iff, Bool-cases, Option-cases,
}
use go_octopi.Base.Time.{Time, is_zero_time, is_after}
use go_octopi.Rewards.{RewardRow}
use go_octopi.Server.WalletCache.{
  LruPackage, LruLaws, WalletSummaryEntry, WalletSummaryCache, get, get_entry, add,
}

module _ {F : Type 0} (pkg : LruPackage (WalletSummaryEntry F)) where
  open pkg use {Cache, peek}

  abbrev pub peek_at : WalletSummaryCache pkg → String → Option (WalletSummaryEntry F)
  peek_at none k = none
  peek_at (some c) k = peek c k

  module _ (laws : LruLaws pkg) where
    get_entry-peek_at :
        (k j : String) (t : Time) (c : Cache) (e : WalletSummaryEntry F)
        → peek (get_entry pkg k t c).1 j ≡ some e
        → peek c j ≡ some e
    unfolding get_entry
    get_entry-peek_at k j t c e p = elim (Option-cases (pkg.get k c).0) [
      | inl missed ↦ ground (arith, laws.get_keeps k j c)
      | inr (found, hit) ↦ elim (Bool-cases (is_after t found.expires_at)) [
        | inr fresh ↦ ground (arith, laws.get_keeps k j c)
        | inl stale ↦ elim (Bool-cases (j == k)) [
          | inl same ↦
              let here : j ≡ k = (eq_iff j k).0 same in
              absurd (ground (arith, here, laws.remove_same k (pkg.get k c).1))
          | inr other ↦
              let apart : j ≢ k = λ here. ground (arith, eq_iff j k) in
              ground (arith, laws.remove_other k j (pkg.get k c).1 apart, laws.get_keeps k j c)
        ]
      ]
    ]

    -- A `Get` adds no entry and changes none.
    pub get-peek_at :
        (c : WalletSummaryCache pkg) (k j : String) (t : Time) (e : WalletSummaryEntry F)
        → peek_at (get pkg c k t).1 j ≡ some e
        → peek_at c j ≡ some e
    unfolding get
    get-peek_at none k j t e p = p
    get-peek_at (some c) k j t e p = elim (Bool-cases (k == "")) [
      | inl empty ↦ ground arith
      | inr named ↦ get_entry-peek_at k j t c e (ground arith)
    ]

    get_entry-found :
        (k : String) (t : Time) (c : Cache) (rows : List (RewardRow F))
        → (get_entry pkg k t c).0 ≡ some rows
        → (e : WalletSummaryEntry F) × (peek c k ≡ some e) × (e.rewards ≡ rows) × (t ≤ e.expires_at)
    unfolding get_entry
    get_entry-found k t c rows h = elim (Option-cases (pkg.get k c).0) [
      | inl missed ↦ absurd (ground arith)
      | inr (found, hit) ↦ (found, ground (arith, laws.get_finds k c), ground arith, ground arith)
    ]

    -- A hit is an entry of the cache that has not expired.
    pub get-found :
        (c : WalletSummaryCache pkg) (k : String) (t : Time) (rows : List (RewardRow F))
        → (get pkg c k t).0 ≡ some rows
        → (e : WalletSummaryEntry F) × (peek_at c k ≡ some e)
          × (e.rewards ≡ rows)
          × (t ≤ e.expires_at)
    unfolding get
    get-found none k t rows h = cc
    get-found (some c) k t rows h = elim (Bool-cases (k == "")) [
      | inl empty ↦ absurd (ground arith)
      | inr named ↦ get_entry-found k t c rows (ground arith)
    ]

    -- The entry that an `Add` stores.
    abbrev pub entry_of : List (RewardRow F) → Time → WalletSummaryEntry F
    entry_of rewards t = record { rewards = rewards; expires_at = t }

    -- What an `Add` leaves is an entry of before under another key, or the one it stores.
    pub add-peek_at :
        (c : WalletSummaryCache pkg) (k j : String) (rewards : List (RewardRow F)) (t : Time)
        (e : WalletSummaryEntry F)
        → peek_at (add pkg c k rewards t) j ≡ some e
        → ((peek_at c j ≡ some e) × ((k ≢ j) ⊎ (((k == "") || is_zero_time t) ≡ true)))
          ⊎ ((k ≡ j) × (((k == "") || is_zero_time t) ≡ false) × (e ≡ entry_of rewards t))
    unfolding add
    add-peek_at none k j rewards t e p = absurd (ground arith)
    add-peek_at (some c) k j rewards t e p = elim (Bool-cases ((k == "") || is_zero_time t)) [
      | inl skipped ↦ inl (ground arith, inr skipped)
      | inr stored ↦ elim (Bool-cases (k == j)) [
        | inl same ↦
            let here : k ≡ j = (eq_iff k j).0 same in
            inr (here, stored, ground (arith, here, laws.add_same k (entry_of rewards t) c))
        | inr other ↦
            let apart : j ≢ k = λ here. ground (arith, eq_iff k j) in
            elim (laws.add_other k j (entry_of rewards t) c apart) [
              | inl evicted ↦ absurd (ground arith)
              | inr kept ↦ inl (ground arith, inl (λ here. ground (arith, eq_iff k j)))
            ]
      ]
    ]
