-- ===== src/Solana/Tests/Prices.antt =====
-- solana_client.go: a price that is fetched once and kept, and the rates of three validators.
use go_octopi.Base.{
  if◌then◌else◌, ℕ, ◌≡◌, ◌*◌, ◌+◌, ◌-◌, refl, false, none, [], ◌∷◌, String, String-Eq, Dict, lookup,
  ltb, nat_eq, arith,
}
use go_octopi.Base.Fault.{ok, err, plain}
use go_octopi.Base.Int.{to_ℕ}
use go_octopi.Base.Text.{digits, trim_space}
use go_octopi.Base.Time.{hour}
use go_octopi.Server.Floats.{Floats}
use go_octopi.Solana.Names.{
  ValidatorCacheEntry, NameSource, Repository, validator_cache_ttl, record_xirr,
}
use go_octopi.Solana.Names.Lookup.{lookup_name}
use go_octopi.Solana.Names.Remembered.{lookup_name-record_xirr}
use go_octopi.Solana.Prices.{SolPriceCacheEntry, PriceSource}

-- The world counts hours; the source of prices answers in the first ten.
abbrev source : PriceSource ℕ
source = record {
  World = ℕ;
  now = λ w. w * hour;
  format_time = digits;
  build = λ from to. none;
  send = λ from to w. (
    if ltb w 10
        then ok (record { status = 200; retry_after = ""; body = [] })
        else err (plain "down"),
    w,
  );
  read_all = λ resp. ok resp.body;
  decode = λ body. ok ("150" ∷ []);
  parse_float = λ text. ok 150;
  trim_body = λ body. body;
}

abbrev empty : SolPriceCacheEntry ℕ
empty = record { value = 0; stored_at = 0; valid = false }

abbrev entry : String → ℕ → ValidatorCacheEntry ℕ
entry name t = record {
  name = name;
  xirr = 7;
  xirr_updated_at = t;
  expires_at = t + validator_cache_ttl;
}

abbrev rated : Dict String (ValidatorCacheEntry ℕ)
rated = ("b", entry "Bee" 10) ∷ ("a", entry "Ant" 10) ∷ ("c", entry "Cat" 20) ∷ []

abbrev numbers : Floats ℕ
numbers = record {
  add = λ a b. a + b;
  sub = λ a b. a - b;
  mul = λ a b. a * b;
  div = λ a b. a;
  neg = λ a. a;
  lt = ltb;
  eq = nat_eq;
  of_int = to_ℕ;
  decimal = λ m e. to_ℕ m;
  abs = λ a. a;
  pow = λ a b. a;
  is_nan = λ a. false;
  is_inf = λ a. false;
  nan = 0;
  hours = to_ℕ;
}

abbrev names : NameSource
names = record {
  World = ℕ;
  now = λ w. w;
  get_vote_accounts = λ vote w. (ok [], w + 1);
  build = λ id. none;
  send = λ id w. (err (plain "down"), w + 1);
  read_all = λ resp. ok resp.body;
  decode = λ body. ok "Octopus";
  trim_body = λ body. body;
}

abbrev repository : Repository numbers
repository = record { cache = rated; node_cache = [] }

trimmed : trim_space " vote" ≡ "vote"
unfolding trim_space
trimmed = refl

unnamed : lookup (trim_space " vote") repository.cache ≡ none
unfolding lookup
unnamed = rw trimmed refl

lookup_name-record_xirr_example :
    lookup_name numbers names " vote" (record_xirr numbers " vote" 8 40 repository) 50
    ≡ (ok (trim_space " vote"), record_xirr numbers " vote" 8 40 repository, 50)
lookup_name-record_xirr_example =
    lookup_name-record_xirr numbers names " vote" 8 40 repository 50 (rw trimmed (λ e. cc)) refl
      unnamed (omega arith)
