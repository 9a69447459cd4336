-- ===== src/Server/Tests/Cache.antt =====
-- wallet_cache.go: a cache that never evicts, in the place of the package's.
use go_octopi.Base.{
  ℕ, ◌≡◌, ◌≤◌, refl, none, some, List, [], ◌∷◌, Dict, lookup, insert, delete, lookup-insert,
  lookup-delete, String, String-Eq, length, eq_iff, inr, arith,
}
use go_octopi.Base.Int.{pos}
use go_octopi.Base.Text.{trim_space}
use go_octopi.Rewards.{RewardRow}
use go_octopi.Server.WalletCache.{
  LruPackage, LruLaws, WalletSummaryEntry, Environment, load_int_env, new_wallet_summary_cache,
  get_entry, get, add,
}
use go_octopi.Server.WalletCache.History.{Call, getting, adding, latest, replay, get-latest}

abbrev Entry : Type 0
Entry = WalletSummaryEntry ℕ

abbrev pub package_of : LruPackage Entry
package_of = record {
  Cache = Dict String Entry;
  new = λ n. [];
  get = λ k c. (lookup k c, c);
  add = insert;
  remove = delete;
  peek = λ c k. lookup k c;
  len = length;
}

pub laws : LruLaws package_of
unfolding lookup
laws = record {
  new_empty = λ n k. refl;
  get_finds = λ k c. refl;
  get_keeps = λ k j c. refl;
  add_same = λ k v c. ground (arith, lookup-insert k k v c, eq_iff k k);
  add_other = λ k j v c apart. inr (ground (arith, lookup-insert k j v c, eq_iff k j));
  remove_same = λ k c. ground (arith, lookup-delete k k c, eq_iff k k);
  remove_other = λ k j c apart. ground (arith, lookup-delete k j c, eq_iff k j);
}

abbrev pub unset : Environment
unset = record { getenv = λ k. ""; atoi = λ s. none }

abbrev row : RewardRow ℕ
row = record {
  date = [];
  row_type = "Staking Reward";
  amount_sol = [];
  amount_sol_value = 3;
  amount_usd = [];
  validator_vote_account = "vote";
  validator = "vote";
  epoch = pos 7;
  timestamp = 40;
}

-- The second `Add` of the wallet replaces the first.
abbrev calls : List (Call ℕ)
calls = getting "b" 5 ∷ adding "a" (row ∷ []) 50 ∷ adding "b" [] 60 ∷ adding "a" [] 90 ∷ []

shows_row :
    (get package_of (replay package_of calls (new_wallet_summary_cache package_of unset)) "a" 50).0
    ≡ some (row ∷ [])
unfolding get replay new_wallet_summary_cache load_int_env add get_entry insert lookup trim_space
shows_row = refl

get-latest_example :
    (e : Entry) × (latest "a" calls ≡ some e) × (e.rewards ≡ row ∷ []) × (50 ≤ e.expires_at)
get-latest_example = get-latest package_of laws unset calls "a" 50 (row ∷ []) shows_row
