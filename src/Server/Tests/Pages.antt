-- ===== src/Server/Tests/Pages.antt =====
-- server.go, metrics.go: a wallet's page of a server that has just started, and three responses.
use go_octopi.Base.Word.{u64_mod}
use go_octopi.Base.{
  ℕ, ◌≡◌, ◌+◌, ◌<◌, nat_eq, if◌then◌else◌, ℕ-Eq, refl, true, false, none, some, List, [], ◌∷◌,
  String, String-Eq, lookup, length, arith,
}
use go_octopi.Base.Fault.{err, plain}
use go_octopi.Base.Text.{trim_space}
use go_octopi.Server.Address.{trim_prefix, matches_address, all_base58}
use go_octopi.Server.Metrics.{count_of}
use go_octopi.Server.Metrics.Counts.{
  serve_requests, count_of-serve_requests, occurrences, statuses_of,
}
use go_octopi.Server.Pages.{
  Response, Host, Server, record_unique_wallet, get_cached_wallet_rewards, cache_wallet_rewards,
  wallet_rewards, finish, show_wallet, serve_wallet, handle_wallet,
}
use go_octopi.Server.Pages.Reachable.{PageOf, Reachable, started, handle_wallet-PageOf}
use go_octopi.Server.Recent.{Row}
use go_octopi.Server.Tests.Cache.{package_of, laws, unset}
use go_octopi.Server.Tests.Rows.{network, accounts, boundaries, cache, row, thursday, shown_rows}
use go_octopi.Server.Tests.Scaled.{scaled, formats}
use go_octopi.Server.WalletCache.{
  LruPackage, get, get_entry, new_wallet_summary_cache, load_int_env,
}

abbrev pub seen : LruPackage (Unit {0})
seen = record {
  Cache = List String;
  new = λ n. [];
  get = λ k c. (none, c);
  add = λ k v c. k ∷ c;
  remove = λ k c. c;
  peek = λ c k. none;
  len = length;
}

abbrev pub host : Host ℕ ℕ
host = record {
  clock = λ w. thursday + 5;
  format_updated = λ t. [];
  marshal_chart = λ c. err (plain "no chart");
}

abbrev Site : Type 0
Site = Server formats scaled network package_of seen

abbrev pub fresh : Site
fresh = record {
  processed = cache;
  wallet_cache = some [];
  wallet_seen = some [];
  wallet_unique_recent = 0;
  world = 0;
}

fresh-Reachable : Reachable formats scaled network package_of seen laws host fresh
unfolding new_wallet_summary_cache load_int_env trim_space
fresh-Reachable = started unset fresh refl

abbrev wallet : String
wallet = "11111111111111111111111111111111"

abbrev pub path : String
path = "/wallet/11111111111111111111111111111111"

abbrev rows : List (Row formats scaled network)
rows = record row { validator = "Octopus" } ∷ []

-- The state behind the rewards, which are not stored, since the epoch ends in the past.
abbrev visited : Site
visited = record fresh { wallet_seen = some (wallet ∷ []); wallet_unique_recent = 1; world = 1 }

abbrev pub answer : Response ℕ × Site
answer =
    finish formats scaled network package_of seen host wallet (thursday + 5) 5 accounts boundaries
      rows visited

collected :
    wallet_rewards formats scaled network package_of seen wallet
      (thursday + 5)
      accounts
      boundaries
      (record visited { world = 0 })
    ≡ some (rows, visited)
unfolding wallet_rewards get_cached_wallet_rewards get get_entry lookup trim_space
    cache_wallet_rewards
collected = rw (wallet_rewards, shown_rows) refl

matched : matches_address wallet ≡ true
unfolding matches_address all_base58
matched = refl

showing :
    show_wallet formats scaled network package_of seen host wallet
      (thursday + 5)
      5
      (record visited { world = 0 })
    ≡ some answer
unfolding show_wallet
showing = rw (show_wallet, collected) refl

serving : serve_wallet formats scaled network package_of seen host wallet fresh ≡ some answer
unfolding serve_wallet record_unique_wallet
serving = showing

pub shown :
    handle_wallet formats scaled network package_of seen host path fresh ≡ some (answer.0, answer.1)
unfolding handle_wallet trim_prefix
shown = rw (handle_wallet, matched, serving) refl

handle_wallet-PageOf_example :
    PageOf (trim_prefix path "/wallet/") answer.0
    × (matches_address (trim_prefix path "/wallet/") ≡ false → answer.1 ≡ fresh)
handle_wallet-PageOf_example =
    handle_wallet-PageOf formats scaled network package_of seen laws host path fresh answer.1
      answer.0 fresh-Reachable shown

-- A handler that tells the number it is sent, and nothing for 0.
abbrev echo : ℕ → ℕ → List ℕ × ℕ
echo request s = (if nat_eq request 0 then [] else 100 ∷ request ∷ [], s + 1)

few : count_of 200 (some ((200, 7) ∷ [])) + 3 < u64_mod
unfolding count_of lookup
few = omega arith

count_of-serve_requests_example :
    count_of 200 (serve_requests echo (0 ∷ 404 ∷ 200 ∷ []) 0 (some ((200, 7) ∷ [])))
    ≡ count_of 200 (some ((200, 7) ∷ []))
      + occurrences 200 (statuses_of echo (0 ∷ 404 ∷ 200 ∷ []) 0)
count_of-serve_requests_example =
    count_of-serve_requests echo (0 ∷ 404 ∷ 200 ∷ []) 0 ((200, 7) ∷ []) 200 few
