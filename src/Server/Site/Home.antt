-- ===== src/Server/Site/Home.antt =====
-- server.go, solana_client.go: the home page of a site over the RPC client.
use go_octopi.Base.{
  ◌<◌, ◌≢◌, ◌+◌, get_elem?, false, ℕ, ◌≡◌, ◌≤◌, refl, Option, none, some, List, [], String,
  String-Eq, Dict, All, arith, inl, inr, Option-cases,
}
use go_octopi.Base.Int.{ℤ, pos, to_ℕ}
use go_octopi.Base.Time.{Time}
use go_octopi.Rewards.{Formats}
use go_octopi.Server.Floats.{Floats}
use go_octopi.Server.Pages.{Host, World}
use go_octopi.Server.Network.{Network}
use go_octopi.Solana.Client.Rates.{recent_validator_performances-record_validator_xirr}
use go_octopi.Base.Text.{trim_space}
use go_octopi.Server.Site.{
  Reply, Templates, Site, render_template, home_data, recent_validator_stats, handle_home,
}
use go_octopi.Server.WalletCache.{LruPackage, WalletSummaryEntry, Environment}
use go_octopi.Solana.Calls.Returns.{Patient}
use go_octopi.Solana.Client.{
  RpcSolanaClient, ensure_validator_repository, record_validator_xirr,
  recent_validator_performances,
}
use go_octopi.Solana.Client.Online.{Web, rpc_network, rpc_recent}
use go_octopi.Solana.Epochs.{now}
use go_octopi.Solana.Epochs.Disk.{Disk}
use go_octopi.Solana.Names.{
  ValidatorCacheEntry, ValidatorPerformance, Repository, validator_cache_ttl,
}
use go_octopi.Solana.Names.Ranking.{Ranking, recent_validators-Ranking}
use go_octopi.Solana.Rpc.{Transport}
use go_octopi.Solana.Wire.{Codec}

module _ {F : Type 0} (floats : Floats F) (env : Environment) where
  abbrev cache_or_none : Option (Repository floats) → Dict String (ValidatorCacheEntry F)
  cache_or_none none = []
  cache_or_none (some r) = r.cache

  -- The cache of the names and rates that the client has or makes.
  abbrev pub cache_of_client : RpcSolanaClient floats → Dict String (ValidatorCacheEntry F)
  cache_of_client c = cache_or_none (ensure_validator_repository floats env c).validators

  pub recent_validator_performances-Ranked :
      (limit : ℤ) (t : Time) (c : RpcSolanaClient floats)
      → Ranking
          (to_ℕ limit)
          t
          (cache_of_client c)
          (recent_validator_performances floats env limit t c).0
  unfolding recent_validator_performances
  recent_validator_performances-Ranked limit t c =
      elim (Option-cases (ensure_validator_repository floats env c).validators) [
        | inl missing ↦ rw (missing, recent_validator_performances) (tt, tt, omega arith, tt)
        | inr (r, there) ↦
            rw (there, recent_validator_performances) (recent_validators-Ranking t limit r.cache)
      ]

module _ (fmt : Formats) (floats : Floats (Formats.Float64 fmt)) (net : Transport) (codec : Codec)
    (fuel : ℕ) (patient : Patient net fuel) (web : Web (Formats.Float64 fmt) (Transport.World net))
    (d : Disk) (path : String) (env : Environment)
    (pkg : LruPackage (WalletSummaryEntry (Formats.Float64 fmt))) (seen : LruPackage (Unit {0}))
    (host : Host
      (Formats.Float64 fmt)
      (World fmt floats (rpc_network floats net codec fuel patient web d path env) pkg seen))
    (templates : Templates (Formats.Float64 fmt)) where
  abbrev pub network : Network (Formats.Float64 fmt)
  network = rpc_network floats net codec fuel patient web d path env

  abbrev pub OnlineSite : Type 0
  OnlineSite = Site fmt floats network pkg seen host templates

  -- The validators that the client gives at the site's time.
  abbrev pub listed : OnlineSite → List (ValidatorPerformance (Formats.Float64 fmt))
  listed s =
      (recent_validator_performances floats env (pos 6) (now net s.world.rpc) s.world.client).0

  -- The reply of the home page, and the template of a list of validators.
  abbrev pub home_reply : OnlineSite → Reply
  home_reply s =
      (handle_home fmt floats network pkg seen host templates
        (rpc_recent floats net codec fuel patient web d path env) "/" s).0

  abbrev pub home_template : List (ValidatorPerformance (Formats.Float64 fmt)) → Reply
  home_template stats = render_template templates "home" (
      home_data fmt floats network pkg seen host templates
        (rpc_recent floats net codec fuel patient web d path env) stats)

  handle_home-listed : (s : OnlineSite) → home_reply s ≡ home_template (listed s)
  unfolding handle_home recent_validator_stats
  handle_home-listed s = refl

  -- The home page of a site over the RPC client is the template of the validators that the client gives:
  -- at most six, the latest first and those of one time by their accounts, each of an entry of its cache
  -- with a rate whose time has not passed. An entry that is not shown has no rate, or its time has passed,
  -- or six are shown that are not older.
  pub handle_home-Ranked :
      (s : OnlineSite)
      → (home_reply s ≡ home_template (listed s))
        × Ranking 6 (now net s.world.rpc) (cache_of_client floats env s.world.client) (listed s)
  handle_home-Ranked s = (
    handle_home-listed s,
    recent_validator_performances-Ranked floats env (pos 6) (now net s.world.rpc) s.world.client,
  )

  -- Where the client of a site has last recorded a rate of a validator, which is a number, in a
  -- repository whose other rates are older, the home page shows it first, under a name, for 24 hours.
  pub handle_home-record_validator_xirr :
      (s : OnlineSite) (c : RpcSolanaClient floats) (r : Repository floats) (vote : String)
      (rate : Formats.Float64 fmt) (t : Time)
      → s.world.client ≡ record_validator_xirr floats env vote rate t c
      → (ensure_validator_repository floats env c).validators ≡ some r
      → trim_space vote ≢ ""
      → floats.is_nan rate ≡ false
      → 0 < t
      → All
          (λ (kv : String × ValidatorCacheEntry (Formats.Float64 fmt)). kv.1.xirr_updated_at < t)
          r.cache
      → now net s.world.rpc ≤ t + validator_cache_ttl
      → (home_reply s ≡ home_template (listed s))
        × (name : String) × (name ≢ "")
        × (get_elem? (listed s) 0
            ≡ some (record {
              vote_account = trim_space vote;
              name = name;
              xirr = rate;
              updated_at = t;
            }))
  handle_home-record_validator_xirr s c r vote rate t last has valid number later old soon =
      let (name, filled, first) =
        recent_validator_performances-record_validator_xirr floats env c r vote rate t
          (now net s.world.rpc) (pos 6) has valid number later old soon refl in
      (handle_home-listed s, name, filled, rw last first)
