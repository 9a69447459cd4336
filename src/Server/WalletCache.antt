-- ===== src/Server/WalletCache.antt =====
-- wallet_cache.go: `walletSummaryCache`, the rewards of a wallet until they expire, over the LRU cache
-- of github.com/hashicorp/golang-lru, a parameter of the model.
pub mod Peeks
pub mod History
use go_octopi.Base.{
  ℕ, Bool, true, false, ◌||◌, ◌≡◌, Option, none, some, List, [], ◌∷◌, String, if◌then◌else◌, ◌==◌,
  String-Eq, leb, nat_eq, not, ◌⊎◌, ◌≢◌,
}
use go_octopi.Base.Int.{ℤ, pos, negsuc, is_pos}
use go_octopi.Base.Text.{trim_space}
use go_octopi.Base.Time.{Time, is_after, is_zero_time}
use go_octopi.Rewards.{RewardRow}

-- The cache of the package, as far as the program calls it. `peek` looks up a key and changes nothing.
pub record LruPackage (V : Type 0) : Type 1 where
  pub Cache : Type 0
  -- lru.New of a positive size
  pub new : ℕ → Cache
  pub get : String → Cache → Option V × Cache
  pub add : String → V → Cache → Cache
  pub remove : String → Cache → Cache
  pub peek : Cache → String → Option V
  pub len : Cache → ℕ

-- What the package promises: `Get` finds what `Peek` sees, an `Add` may evict other keys but changes no
-- value, a `Remove` forgets one key.
pub record LruLaws {V : Type 0} (p : LruPackage V) : Type 0 where
  pub new_empty : (n : ℕ) (k : String) → p.peek (p.new n) k ≡ none
  pub get_finds : (k : String) (c : p.Cache) → (p.get k c).0 ≡ p.peek c k
  pub get_keeps : (k j : String) (c : p.Cache) → p.peek (p.get k c).1 j ≡ p.peek c j
  pub add_same : (k : String) (v : V) (c : p.Cache) → p.peek (p.add k v c) k ≡ some v
  pub add_other :
      (k j : String) (v : V) (c : p.Cache)
      → j ≢ k
      → (p.peek (p.add k v c) j ≡ none) ⊎ (p.peek (p.add k v c) j ≡ p.peek c j)
  pub remove_same : (k : String) (c : p.Cache) → p.peek (p.remove k c) k ≡ none
  pub remove_other : (k j : String) (c : p.Cache) → j ≢ k → p.peek (p.remove k c) j ≡ p.peek c j

pub record WalletSummaryEntry (F : Type 0) : Type 0 where
  pub rewards : List (RewardRow F)
  pub expires_at : Time

-- What os and strconv read.
pub record Environment : Type 0 where
  pub getenv : String → String
  pub atoi : String → Option ℤ

abbrev natural_or : ℤ → Option ℤ → ℤ
natural_or fallback none = fallback
natural_or fallback (some (pos n)) = pos n
natural_or fallback (some (negsuc n)) = fallback

-- loadIntEnv
unfoldable pub load_int_env : Environment → String → ℤ → ℤ
load_int_env env key fallback =
    let value = trim_space (env.getenv key) in
    if value == "" then fallback else natural_or fallback (env.atoi value)

-- cloneRewardRows: rows are values, so a copy is the list itself.
abbrev pub clone_reward_rows : {F : Type 0} → List (RewardRow F) → List (RewardRow F)
clone_reward_rows rows = rows

abbrev pub default_wallet_cache_capacity : ℕ
default_wallet_cache_capacity = 300

module _ {F : Type 0} (pkg : LruPackage (WalletSummaryEntry F)) where
  open pkg use {Cache}

  -- A `*walletSummaryCache`, which may be nil.
  abbrev pub WalletSummaryCache : Type 0
  WalletSummaryCache = Option Cache

  abbrev pub new_of_size : ℤ → WalletSummaryCache
  new_of_size (negsuc n) = none
  new_of_size (pos n) = if nat_eq n 0 then none else some (pkg.new n)

  -- newWalletSummaryCache
  unfoldable pub new_wallet_summary_cache : Environment → WalletSummaryCache
  unfolding load_int_env
  new_wallet_summary_cache env =
      new_of_size
        (load_int_env env "OCTOPI_CACHE_WALLET_MAX_ENTRIES" (pos default_wallet_cache_capacity))

  -- `Get` past the check of the key.
  unfoldable pub get_entry : String → Time → Cache → Option (List (RewardRow F)) × Cache
  get_entry key now c =
      let (found, c') = pkg.get key c in
      elim found [
        | none ↦ (none, c')
        | some entry ↦
            if is_after now entry.expires_at
            then (none, pkg.remove key c')
            else (some (clone_reward_rows entry.rewards), c')
      ]

  abbrev store :
      Option (List (RewardRow F)) × Cache → Option (List (RewardRow F)) × WalletSummaryCache
  store (found, c) = (found, some c)

  -- Get
  unfoldable pub get :
      WalletSummaryCache → String → Time → Option (List (RewardRow F)) × WalletSummaryCache
  get none key now = (none, none)
  get (some c) key now = if key == "" then (none, some c) else store (get_entry key now c)

  -- Add
  unfoldable pub add : WalletSummaryCache → String → List (RewardRow F) → Time → WalletSummaryCache
  add none key rewards expires_at = none
  add (some c) key rewards expires_at =
      if (key == "") || is_zero_time expires_at
      then some c
      else some
          (pkg.add key (record { rewards = clone_reward_rows rewards; expires_at = expires_at }) c)
