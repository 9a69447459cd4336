-- ===== src/Server/Tests/Home.antt =====
-- server.go, solana_client.go: the home page of a site over an RPC client whose requests all fail.
use go_octopi.Base.{
  ℕ, String, get_elem?, ◌≤◌, ◌≢◌, ◌≡◌, ◌+◌, refl, none, some, List, [], ◌∷◌, arith,
}
use go_octopi.Server.Network.{Network}
use go_octopi.Base.Fault.{plain, Result, ok, err}
use go_octopi.Server.Pages.{Host, World}
use go_octopi.Server.Site.{Reply, Templates, Site}
use go_octopi.Server.Site.Home.{
  cache_of_client, OnlineSite, listed, home_reply, home_template, handle_home-Ranked,
  handle_home-record_validator_xirr,
}
use go_octopi.Base.Time.{Time, unix}
use go_octopi.Base.Text.{trim_space}
use go_octopi.Server.Tests.Cache.{package_of, unset}
use go_octopi.Server.Tests.Pages.{seen}
use go_octopi.Server.Tests.Rows.{cache}
use go_octopi.Server.Tests.Scaled.{scaled, formats}
use go_octopi.Solana.Calls.Retries.{fails}
use go_octopi.Solana.Calls.Returns.{Patient}
use go_octopi.Solana.Client.{RpcSolanaClient, ensure_validator_repository, record_validator_xirr}
use go_octopi.Solana.Client.Online.{Web, rpc_network}
use go_octopi.Solana.Epochs.{now}
use go_octopi.Solana.Epochs.Disk.{Disk}
use go_octopi.Solana.Names.Ranking.{Ranking}
use go_octopi.Solana.Names.{ValidatorPerformance, Repository, validator_cache_ttl}
use go_octopi.Solana.Rpc.{Transport}
use go_octopi.Solana.Wire.{Codec}

abbrev down : {A : Type 0} → Result A
down = err (plain "down")

abbrev offline : Transport
offline = record {
  World = ℕ;
  unix_nano = λ w. w;
  send = λ payload w. (down, w + 1);
  wait = λ t w. (none, w);
  parse_seconds = λ text. none;
  time_until = λ text w. none;
}

offline-Patient : Patient offline 1
offline-Patient payload w = (0, down, fails (plain "down") refl, omega arith)

abbrev codec : Codec
codec = record {
  encode = λ requests. ok [];
  balance = λ body. down;
  program_accounts = λ body. down;
  signatures = λ body. down;
  transaction = λ body. down;
  transactions = λ body. down;
  inflation_reward = λ body. down;
  vote_accounts = λ body. down;
  epoch_info = λ body. down;
  block_time = λ body. down;
  events = λ body. down;
}

abbrev web : Web ℕ ℕ
web = record {
  cancelled = λ w. none;
  sleep = λ t w. w;
  read_all = λ resp. ok resp.body;
  trim_body = λ body. body;
  build_name = λ id. none;
  send_name = λ id w. (down, w);
  decode_name = λ body. down;
  format_time = λ t. [];
  build_prices = λ from to. none;
  send_prices = λ from to w. (down, w);
  decode_prices = λ body. down;
  parse_float = λ text. down;
}

-- No file can be read or made.
abbrev disk : Disk
disk = record {
  Files = Unit;
  Bytes = Unit;
  executable = down;
  dir = λ p. p;
  join = λ a b. b;
  open_file = λ p f. down;
  create_temp = λ dir pattern f. (down, f);
  encode = λ x p f. (none, f);
  decode = λ bytes. down;
  close = λ p f. (none, f);
  remove = λ p f. f;
  rename = λ a b f. (none, f);
}

abbrev network : Network ℕ
network = rpc_network scaled offline codec 1 offline-Patient web disk "epochs.gob" unset

abbrev host : Host ℕ (World formats scaled network package_of seen)
host = record { clock = λ o. 5; format_updated = λ t. []; marshal_chart = λ c. down }

abbrev blank : Templates ℕ
blank page content = ([], none)

abbrev client : RpcSolanaClient scaled
client = record {
  endpoint = "https://rpc.example";
  http_client = none;
  validator_api_key = "key";
  validators = some (record {
    cache = ("vote", record { name = "Vote"; xirr = 8; xirr_updated_at = 3; expires_at = 9 }) ∷ [];
    node_cache = [];
  });
  price_repo = none;
}

abbrev site : Site formats scaled network package_of seen host blank
site = record {
  processed = cache;
  wallet_cache = none;
  wallet_seen = none;
  wallet_unique_recent = 0;
  world = record {
    rpc = record { counter = 0; world = 5 };
    client = client;
    epochs = none;
    files = tt;
  };
}

abbrev listing :
    OnlineSite formats scaled offline codec 1 offline-Patient web disk "epochs.gob" unset package_of
      seen host blank
    → List (ValidatorPerformance ℕ)
listing =
    listed formats scaled offline codec 1 offline-Patient web disk "epochs.gob" unset package_of
      seen host blank

abbrev reply :
    OnlineSite formats scaled offline codec 1 offline-Patient web disk "epochs.gob" unset package_of
      seen host blank
    → Reply
reply =
    home_reply formats scaled offline codec 1 offline-Patient web disk "epochs.gob" unset package_of
      seen host blank

abbrev template : List (ValidatorPerformance ℕ) → Reply
template =
    home_template formats scaled offline codec 1 offline-Patient web disk "epochs.gob" unset
      package_of seen host blank

handle_home-Ranked_example :
    (reply site ≡ template (listing site))
    × Ranking 6 (now offline site.world.rpc) (cache_of_client scaled unset client) (listing site)
handle_home-Ranked_example =
    handle_home-Ranked formats scaled offline codec 1 offline-Patient web disk "epochs.gob" unset
      package_of seen host blank site

-- A rate that is recorded at the start of 1970, five nanoseconds before the page.
abbrev start : Time
start = 62135596800000000000

abbrev recorded_site : Site formats scaled network package_of seen host blank
recorded_site = record site {
  world = record site.world { client = record_validator_xirr scaled unset " vote" 7 start client };
}

abbrev rated : Repository scaled
rated = record {
  cache = ("vote", record { name = "Vote"; xirr = 8; xirr_updated_at = 3; expires_at = 9 }) ∷ [];
  node_cache = [];
}

configured : (ensure_validator_repository scaled unset client).validators ≡ some rated
unfolding ensure_validator_repository
configured = refl

trimmed : trim_space " vote" ≡ "vote"
unfolding trim_space
trimmed = refl

in_time : now offline recorded_site.world.rpc ≤ start + validator_cache_ttl
unfolding unix
in_time = omega arith

handle_home-record_validator_xirr_example :
    (reply recorded_site ≡ template (listing recorded_site))
    × (name : String) × (name ≢ "")
    × (get_elem? (listing recorded_site) 0
        ≡ some (record {
          vote_account = trim_space " vote";
          name = name;
          xirr = 7;
          updated_at = start;
        }))
handle_home-record_validator_xirr_example =
    handle_home-record_validator_xirr formats scaled offline codec 1 offline-Patient web disk
      "epochs.gob" unset package_of seen host blank recorded_site client rated " vote" 7 start refl
      configured (rw trimmed (λ e. cc)) refl (omega arith) (omega arith, tt) in_time
