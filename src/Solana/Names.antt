-- ===== src/Solana/Names.antt =====
-- solana_client.go: `validatorRepository`, the names of validators, their nodes and their last rates.
pub mod Lookup
pub mod Order
pub mod Ranking
pub mod Remembered
pub mod Newest
use go_octopi.Base.{
  ℕ, ◌+◌, ◌*◌, Bool, true, false, not, ◌&&◌, ◌||◌, Option, none, some, List, [], ◌∷◌, String,
  String-Eq, Dict, lookup, insert, delete, take, length, ltb, leb, nat_eq, if◌then◌else◌, ◌==◌,
}
use go_octopi.Base.Fault.{Error, plain, wrap, bad_status, Result, ok, err, wrapping, ◌>>=◌}
use go_octopi.Base.Int.{ℤ, is_pos, to_ℕ}
use go_octopi.Base.Sort.{sort}
use go_octopi.Base.Text.{codes, lower, trim_space}
use go_octopi.Base.Time.{Time, hour, is_zero_time, is_after}
use go_octopi.Server.Floats.{Floats}
use go_octopi.Solana.Rpc.{HttpResponse}
use go_octopi.Solana.Types.{VoteAccount}

-- validatorCacheEntry
pub record ValidatorCacheEntry (F : Type 0) : Type 0 where
  pub name : String
  pub xirr : F
  pub xirr_updated_at : Time
  pub expires_at : Time

pub record NodeCacheEntry : Type 0 where
  pub value : String
  pub expires_at : Time

pub record ValidatorPerformance (F : Type 0) : Type 0 where
  pub vote_account : String
  pub name : String
  pub xirr : F
  pub updated_at : Time

abbrev pub validator_cache_ttl : ℕ
validator_cache_ttl = 24 * hour

-- What the repository uses of net/http and encoding/json, the clock, and the client's GetVoteAccounts.
pub record NameSource : Type 1 where
  pub World : Type 0
  pub now : World → Time
  pub get_vote_accounts : String → World → Result (List VoteAccount) × World
  -- http.NewRequestWithContext for an account
  pub build : String → Option Error
  pub send : String → World → Result HttpResponse × World
  -- io.ReadAll of at most 64 KB
  pub read_all : HttpResponse → Result (List ℕ)
  -- the field name of the object that json.Unmarshal reads
  pub decode : List ℕ → Result String
  -- strings.TrimSpace on the bytes of a body
  pub trim_body : List ℕ → List ℕ

-- a < b of strings
unfoldable pub text_lt : List ℕ → List ℕ → Bool
text_lt xs [] = false
text_lt [] (y ∷ ys) = true
text_lt (x ∷ xs) (y ∷ ys) = let rest = text_lt xs ys in if nat_eq x y then rest else ltb x y

abbrev same_codes : List ℕ → List ℕ → Bool
same_codes [] [] = true
same_codes [] (y ∷ ys) = false
same_codes (x ∷ xs) [] = false
same_codes (x ∷ xs) (y ∷ ys) = nat_eq (lower x) (lower y) && same_codes xs ys

-- strings.EqualFold, on the letters A to Z
unfoldable pub equal_fold : String → String → Bool
equal_fold a b = same_codes (codes a) (codes b)

module _ {F : Type 0} where
  -- The order of the `sort.Slice` call.
  unfoldable pub ranks_before : ValidatorPerformance F → ValidatorPerformance F → Bool
  ranks_before a b =
      if nat_eq a.updated_at b.updated_at
      then text_lt (codes a.vote_account) (codes b.vote_account)
      else is_after a.updated_at b.updated_at

  abbrev pub is_expired : Time → ValidatorCacheEntry F → Bool
  is_expired now e = not (is_zero_time e.expires_at) && is_after now e.expires_at

  abbrev pub performance_of : String → ValidatorCacheEntry F → ValidatorPerformance F
  performance_of vote e = record {
    vote_account = vote;
    name = e.name;
    xirr = e.xirr;
    updated_at = e.xirr_updated_at;
  }

  -- The loop of `recentValidators` over the cache: the results, and the cache without what has expired.
  unfoldable pub scan :
      Time
      → Dict String (ValidatorCacheEntry F)
      → List (ValidatorPerformance F) × Dict String (ValidatorCacheEntry F)
  scan now [] = ([], [])
  scan now ((vote, e) ∷ cache) =
      let (results, rest) = scan now cache in
      if is_zero_time e.xirr_updated_at
      then (results, (vote, e) ∷ rest)
      else if is_expired now e
      then (results, rest)
      else (performance_of vote e ∷ results, (vote, e) ∷ rest)

  -- recentValidators
  unfoldable pub recent_validators :
      Time
      → ℤ
      → Dict String (ValidatorCacheEntry F)
      → List (ValidatorPerformance F) × Dict String (ValidatorCacheEntry F)
  recent_validators now limit cache =
      if is_pos limit
      then (take (to_ℕ limit) (sort ranks_before (scan now cache).0), (scan now cache).1)
      else ([], cache)

module _ {F : Type 0} (floats : Floats F) where
  open floats use {of_int, is_nan}

  -- The repository's two maps.
  pub record Repository : Type 0 where
    pub cache : Dict String (ValidatorCacheEntry F)
    pub node_cache : Dict String NodeCacheEntry

  -- r.cache[id], the zero entry where there is none
  abbrev pub entry_or_zero : Option (ValidatorCacheEntry F) → ValidatorCacheEntry F
  entry_or_zero none = record {
    name = "";
    xirr = of_int (ℤ.pos 0);
    xirr_updated_at = 0;
    expires_at = 0;
  }
  entry_or_zero (some e) = e

  -- cached
  unfoldable pub cached : String → Time → Repository → Option String × Repository
  cached id now r = elim (lookup id r.cache) [
    | none ↦ (none, r)
    | some e ↦
        if is_after now e.expires_at
        then (none, record r { cache = delete id r.cache })
        else (some e.name, r)
  ]

  -- store
  unfoldable pub store : String → String → Time → Repository → Repository
  store id name now r =
      let e = entry_or_zero (lookup id r.cache) in
      record r {
        cache =
            insert id (record e { name = name; expires_at = now + validator_cache_ttl }) r.cache;
      }

  abbrev pub recorded : String → F → Time → ValidatorCacheEntry F → ValidatorCacheEntry F
  recorded id value now e = record {
    name = if e.name == "" then id else e.name;
    xirr = value;
    xirr_updated_at = now;
    expires_at = now + validator_cache_ttl;
  }

  -- recordXIRR
  unfoldable pub record_xirr : String → F → Time → Repository → Repository
  record_xirr account value now r =
      let id = trim_space account in
      if (id == "") || is_nan value then r else record r {
        cache = insert id (recorded id value now (entry_or_zero (lookup id r.cache))) r.cache;
      }
