-- ===== src/Server/Tests/Site.antt =====
-- server.go: a site from its start on, and a template that fails behind its first output.
use go_octopi.Base.{
  ℕ, ◌≡◌, ◌≢◌, ◌↔◌, ◌⊎◌, refl, none, some, List, [], ◌∷◌, String-Eq, ◌==◌, if◌then◌else◌, lookup,
  insert,
}
use go_octopi.Base.Fault.{plain}
use go_octopi.Base.Text.{trim_space}
use go_octopi.Lru.{new}
use go_octopi.Limiter.Registry.{limiter_for_endpoint}
use go_octopi.Server.Address.{trim_prefix, has_prefix}
use go_octopi.Server.Metrics.{
  Counter, with_response_metrics, increment_response_count, write_headers, write_header, count_of,
}
use go_octopi.Server.Pages.{new_unique_wallet_lru, warmup_epochs}
use go_octopi.Server.Pages.Reachable.{PageOf}
use go_octopi.Server.Site.{
  Event, Reply, error_reply, elsewhere, Templates, Recent, route, headers, render_template,
  recent_validator_stats, handle_home, handle, serve,
}
use go_octopi.Server.Site.Reached.{serve_all, serve_all-PageOf}
use go_octopi.Server.Site.Sent.{CountedOnce, serve-CountedOnce}
use go_octopi.Server.Site.Setup.{
  ServerOption, with_logger, apply_option, apply_options, configure, new_default_solana_client,
  new_site, new_server, new_server-none,
}
use go_octopi.Server.Tests.Cache.{package_of, laws}
use go_octopi.Server.Tests.Pages.{seen, host, fresh, path, answer, shown}
use go_octopi.Server.Tests.Rows.{network}
use go_octopi.Server.Tests.Scaled.{scaled, formats}
use go_octopi.Server.WalletCache.{Environment, new_wallet_summary_cache, load_int_env}
use go_octopi.Solana.Client.{new_rate_limited_http_client}

abbrev keys : Environment
keys = record {
  getenv = λ name.
      if name == "HELIUS_API_KEY" then "h" else if name == "VALIDATORS_API_KEY" then "v" else "";
  atoi = λ text. none;
}

abbrev no_validators :
    Recent formats scaled network package_of seen host (λ page content. ([], none))
no_validators n w = ([], w)

-- A template that fails behind one byte.
abbrev failing : Templates ℕ
failing page content = (60 ∷ [], some (plain "write"))

abbrev none_yet : Counter
none_yet = some []

-- The client is left to the default, and the logger is given.
abbrev options : List (ServerOption (Unit {0}) (Unit {0}))
options = with_logger (some tt) ∷ []

started :
    new_server formats scaled network package_of seen host
      (λ key. key)
      (λ url. none)
      (λ c. tt)
      tt
      keys
      0
      []
      options
      0
    ≡ some ((tt, tt), fresh)
unfolding new_server configure apply_options apply_option new_default_solana_client
    new_rate_limited_http_client limiter_for_endpoint new_site new new_wallet_summary_cache
    load_int_env trim_space new_unique_wallet_lru warmup_epochs
started = refl

abbrev root_page : Reply
root_page = Event.body (60 ∷ []) ∷ error_reply "template rendering error" 500

miscounted :
    serve formats scaled network package_of seen host failing no_validators "/" fresh none_yet
    ≡ some (root_page, fresh, some ((500, 1) ∷ []))
unfolding serve handle handle_home recent_validator_stats render_template route has_prefix
    with_response_metrics increment_response_count count_of lookup insert headers write_headers
    write_header
miscounted = refl

own : route "/" ≢ elsewhere
unfolding route has_prefix
own h = cc

serve-CountedOnce_example :
    CountedOnce formats scaled network package_of seen host failing no_validators none_yet root_page
      (some ((500, 1) ∷ []))
serve-CountedOnce_example =
    serve-CountedOnce formats scaled network package_of seen host failing no_validators "/" fresh
      fresh none_yet (some ((500, 1) ∷ [])) root_page own miscounted

new_server-none_example :
    (new_server formats scaled network package_of seen host
        (λ key. key)
        (λ url. none)
        (λ c. tt)
        tt
        keys
        0
        []
        options
        0
      ≡ none)
    ↔ ((keys.getenv "HELIUS_API_KEY" ≡ "") ⊎ (keys.getenv "VALIDATORS_API_KEY" ≡ ""))
new_server-none_example =
    new_server-none formats scaled network package_of seen host (λ key. key) (λ url. none) (λ c. tt)
      tt keys 0 [] options 0

visited_home :
    serve_all formats scaled network package_of seen laws host failing no_validators
      ("/" ∷ [])
      fresh
      none_yet
    ≡ some (fresh, some ((500, 1) ∷ []))
unfolding serve_all
visited_home = rw (miscounted, serve_all) refl

serve_all-PageOf_example : PageOf (trim_prefix path "/wallet/") answer.0
serve_all-PageOf_example =
    serve_all-PageOf formats scaled network package_of seen laws host failing no_validators
      (λ key. key) (λ url. none) (λ c. tt) tt keys 0 [] options 0 (tt, tt) fresh fresh answer.1
      ("/" ∷ []) none_yet (some ((500, 1) ∷ [])) path answer.0 started visited_home shown
