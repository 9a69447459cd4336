-- ===== src/Solana/Client/Online.antt =====
-- solana_client.go: the client as the network of the pages, `SolanaClient`, with the files of the epoch
-- cache and the services behind the repositories.
use go_octopi.Base.{
  ℕ, Bool, true, false, ◌&&◌, Option, some, List, [], ◌∷◌, String, Dict, length, nat_eq, ◌||◌,
}
use go_octopi.Base.Fault.{Error, Result, ok, err}
use go_octopi.Base.Int.{ℤ, pos}
use go_octopi.Base.Time.{Time, is_after}
use go_octopi.Server.Floats.{Floats}
use go_octopi.Server.Network.{Network}
use go_octopi.Server.WalletCache.{Environment}
use go_octopi.Solana.Batch.{Details}
use go_octopi.Solana.Batch.Returns.{get_transactions-Returns}
use go_octopi.Solana.Calls.Returns.{
  Patient, Returns, get_balance-Returns, list_stake_accounts-Returns, get_signatures-Returns,
  get_transaction-Returns, get_inflation_reward-Returns, get_vote_accounts-Returns,
  get_epoch_info-Returns,
}
use go_octopi.Solana.Client.{
  RpcSolanaClient, lookup_validator_name, record_validator_xirr, recent_validator_performances,
  get_sol_price,
}
use go_octopi.Solana.Epochs.{EpochCache, needs_refresh, now}
use go_octopi.Solana.Epochs.Disk.{Disk, persist_locked, ensure_epoch_cache}
use go_octopi.Solana.Epochs.Returns.{get_boundaries-Answered, get_current_epoch_end-Answered}
use go_octopi.Solana.Names.{NameSource, ValidatorPerformance}
use go_octopi.Solana.Prices.{PriceSource}
use go_octopi.Solana.Rpc.{Transport, State, Rpc, HttpResponse}
use go_octopi.Solana.Types.{TransactionDetail}
use go_octopi.Solana.Wire.{Codec}
use go_octopi.Tips.Client.{Client}

-- What the repositories use of net/http, encoding/json and strconv, over the world of the transport,
-- and what the collection of tips uses of the context and of time.
pub record Web (F W : Type 0) : Type 0 where
  pub cancelled : W → Option Error
  pub sleep : ℕ → W → W
  pub read_all : HttpResponse → Result (List ℕ)
  pub trim_body : List ℕ → List ℕ
  pub build_name : String → Option Error
  pub send_name : String → W → Result HttpResponse × W
  pub decode_name : List ℕ → Result String
  pub format_time : Time → List ℕ
  pub build_prices : List ℕ → List ℕ → Option Error
  pub send_prices : List ℕ → List ℕ → W → Result HttpResponse × W
  pub decode_prices : List ℕ → Result (List String)
  pub parse_float : String → Result F

module _ {F : Type 0} (floats : Floats F) (net : Transport) (codec : Codec) (fuel : ℕ)
    (patient : Patient net fuel) (web : Web F (Transport.World net)) (d : Disk) (path : String)
    (env : Environment) where
  -- The state behind the interface: the world with the counter of requests, the client with its
  -- repositories, its epoch cache, and the files.
  pub record Online : Type 0 where
    pub rpc : State net
    pub client : RpcSolanaClient floats
    pub epochs : Option EpochCache
    pub files : Disk.Files d

  abbrev with_world :
      {A : Type 0} → State net → Result A × Transport.World net → Result A × State net
  with_world s (r, w) = (r, record s { world = w })

  abbrev run : {A : Type 0} {m : Rpc net A} → Returns m → State net → Result A × State net
  run h s = (h s).0

  -- The service of the names, over the same world.
  abbrev pub names : NameSource
  names = record {
    World = State net;
    now = now net;
    get_vote_accounts = λ vote s. run (get_vote_accounts-Returns net codec fuel patient vote) s;
    build = web.build_name;
    send = λ id s. with_world s (web.send_name id s.world);
    read_all = web.read_all;
    decode = web.decode_name;
    trim_body = web.trim_body;
  }

  -- The service of the prices, over the same world.
  abbrev pub prices : PriceSource F
  prices = record {
    World = State net;
    now = now net;
    format_time = web.format_time;
    build = web.build_prices;
    send = λ from to s. with_world s (web.send_prices from to s.world);
    read_all = web.read_all;
    decode = web.decode_prices;
    parse_float = web.parse_float;
    trim_body = web.trim_body;
  }

  abbrev on_rpc : {A : Type 0} {m : Rpc net A} → Returns m → Online → Result A × Online
  on_rpc h o = let (r, s) = run h o.rpc in (r, record o { rpc = s })

  abbrev some_details : Details → Dict String (Option TransactionDetail)
  some_details [] = []
  some_details ((sig, detail) ∷ found) = (sig, some detail) ∷ some_details found

  abbrev with_result : {A B : Type 0} → (A → B) → Result A × Online → Result B × Online
  with_result f (ok a, o) = (ok (f a), o)
  with_result f (err e, o) = (err e, o)

  abbrev tips_client : Client
  tips_client = record {
    World = Online;
    cancelled = λ o. web.cancelled o.rpc.world;
    sleep = λ t o. record o { rpc = record o.rpc { world = web.sleep t o.rpc.world } };
    get_signatures_for_address = λ address limit before o.
        on_rpc (get_signatures-Returns net codec fuel patient address (pos limit) before) o;
    get_transactions = λ sigs o.
        with_result some_details (on_rpc (get_transactions-Returns net codec fuel patient sigs) o);
    get_transaction =
        λ sig o. with_result some (on_rpc (get_transaction-Returns net codec fuel patient sig) o);
  }

  abbrev written : Bool → Disk.Files d → EpochCache → Disk.Files d
  written true files c = (persist_locked d path c files).1
  written false files c = files

  abbrev is_ok : {A : Type 0} → Result A → Bool
  is_ok (ok a) = true
  is_ok (err e) = false

  -- What a read of the epoch cache leaves: a refresh that succeeded is also on the disk.
  abbrev cached :
      {A : Type 0} → Bool → Online → Result A × EpochCache × State net → Result A × Online
  cached refreshes o (r, c, s) =
      (r, record o { rpc = s; epochs = some c; files = written (refreshes && is_ok r) o.files c })

  abbrev loaded : Online → EpochCache
  loaded o = ensure_epoch_cache d path o.epochs o.files

  abbrev name_of : Result String → String
  name_of (ok name) = name
  name_of (err e) = ""

  -- `RPCSolanaClient` as a `SolanaClient`.
  abbrev pub rpc_network : Network F
  rpc_network = record {
    tips = tips_client;
    get_balance = λ address o. on_rpc (get_balance-Returns net codec fuel patient address) o;
    list_stake_accounts =
        λ owner o. on_rpc (list_stake_accounts-Returns net codec fuel patient owner) o;
    get_inflation_reward = λ addresses epoch o.
        on_rpc (get_inflation_reward-Returns net codec fuel patient addresses (some epoch)) o;
    get_epoch_boundaries = λ min_end o.
        cached (needs_refresh min_end (loaded o) (now net o.rpc)) o
          (get_boundaries-Answered net codec fuel patient min_end (loaded o) o.rpc).0;
    get_current_epoch_end = λ o.
        cached
          (nat_eq (length (EpochCache.boundaries (loaded o))) 0
            || is_after (now net o.rpc) (EpochCache.expires_at (loaded o)))
          o (get_current_epoch_end-Answered net codec fuel patient (loaded o) o.rpc).0;
    get_epoch_info = λ o. on_rpc (get_epoch_info-Returns net codec fuel patient) o;
    get_sol_price = λ o.
        let (r, c, s) = get_sol_price floats prices env o.client o.rpc in
        (r, record o { rpc = s; client = c });
    lookup_validator_name = λ vote o.
        let (r, c, s) = lookup_validator_name floats names env vote o.client o.rpc in
        (name_of r, record o { rpc = s; client = c });
    record_validator_xirr = λ vote rate o. record o {
      client = record_validator_xirr floats env vote rate (now net o.rpc) o.client;
    };
  }

  -- `RecentValidatorPerformances` of the client
  abbrev pub rpc_recent : ℤ → Online → List (ValidatorPerformance F) × Online
  rpc_recent limit o =
      let (stats, c) = recent_validator_performances floats env limit (now net o.rpc) o.client in
      (stats, record o { client = c })
