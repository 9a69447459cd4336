-- ===== src/Server/Site.antt =====
-- server.go: `NewServer`, the routes of its mux, the home page and the templates, around the handlers of
-- Server/Pages. A path is one that net/http does not clean first.
pub mod Setup
pub mod Sent
pub mod Reached
pub mod Home
use go_octopi.Base.{
  ℕ, Bool, true, false, Option, none, some, List, [], ◌∷◌, ◌++◌, String, String-Eq, length, nat_eq,
  if◌then◌else◌, ◌==◌, ◌||◌,
}
use go_octopi.Base.Fault.{Error, Result, ok, err}
use go_octopi.Base.Int.{ℤ, pos, is_pos}
use go_octopi.Base.Text.{codes}
use go_octopi.Rewards.{Formats}
use go_octopi.Server.Address.{has_prefix}
use go_octopi.Server.Demo.{demo_wallet_data, demo_chart}
use go_octopi.Server.Floats.{Floats}
use go_octopi.Server.Metrics.{Counter, with_response_metrics}
use go_octopi.Server.Network.{Network}
use go_octopi.Server.Pages.{Host, Response, Server, World, handle_wallet}
use go_octopi.Server.Returns.{WalletData}
use go_octopi.Server.WalletCache.{LruPackage, WalletSummaryEntry}
use go_octopi.Solana.Names.{ValidatorPerformance}

-- TemplateData, without the footer and the logo, which are the same on every page.
pub record TemplateData (F : Type 0) : Type 0 where
  pub title : List ℕ
  pub body_class : String
  pub is_demo : Bool
  pub wallet : Option (WalletData F)
  pub recent_vals : List (ValidatorPerformance F)

-- What a handler does to the response: the headers and the pieces of the body, in order.
pub data Event : Type 0 where
  header : ℕ → Event
  body : List ℕ → Event

abbrev pub Reply : Type 0
Reply = List Event

-- http.Error and http.NotFound
abbrev pub error_reply : String → ℕ → Reply
error_reply text status = header status ∷ body (codes text ++ codes "\n") ∷ []

abbrev pub not_found_reply : Reply
not_found_reply = error_reply "404 page not found" 404

-- The headers that a handler writes.
unfoldable pub headers : Reply → List ℕ
headers [] = []
headers (header status ∷ events) = status ∷ headers events
headers (body bytes ∷ events) = headers events

-- Where a request goes.
pub data Route : Type 0 where
  home : Route
  demo : Route
  wallet : Route
  -- the handlers of expvar, and the redirection from "/wallet"
  elsewhere : Route

-- The mux with the patterns of `NewServer`.
unfoldable pub route : String → Route
route path =
    if path == "/wallet/demo"
    then demo
    else if (path == "/debug/vars") || (path == "/wallet")
    then elsewhere
    else if has_prefix path "/wallet/"
    then wallet
    else home

-- The names in `pageTemplates`.
abbrev pub has_page : String → Bool
has_page page = (page == "home") || (page == "wallet")

-- ExecuteTemplate: what it writes, and its error.
abbrev pub Templates : Type 0 → Type 0
Templates F = String → TemplateData F → List ℕ × Option Error

module _ {F : Type 0} (templates : Templates F) where
  abbrev pub rendered : List ℕ × Option Error → Reply
  rendered ([], none) = []
  rendered ([], some e) = error_reply "template rendering error" 500
  rendered (b ∷ bytes, none) = body (b ∷ bytes) ∷ []
  rendered (b ∷ bytes, some e) = body (b ∷ bytes) ∷ error_reply "template rendering error" 500

  -- renderTemplate
  unfoldable pub render_template : String → TemplateData F → Reply
  render_template page content =
      if has_page page
      then rendered (templates page content)
      else error_reply "template not found" 500

module _ (fmt : Formats) (floats : Floats (Formats.Float64 fmt))
    (net : Network (Formats.Float64 fmt))
    (pkg : LruPackage (WalletSummaryEntry (Formats.Float64 fmt))) (seen : LruPackage (Unit {0}))
    (host : Host (Formats.Float64 fmt) (World fmt floats net pkg seen))
    (templates : Templates (Formats.Float64 fmt)) where
  open fmt use {Float64}

  -- RecentValidatorPerformances of the client
  abbrev pub Recent : Type 0
  Recent =
      ℤ
      → World fmt floats net pkg seen
      → List (ValidatorPerformance Float64) × World fmt floats net pkg seen

  abbrev pub Site : Type 0
  Site = Server fmt floats net pkg seen

  module _ (recent : Recent) where
    -- recentValidatorStats
    unfoldable pub recent_validator_stats : ℤ → Site → List (ValidatorPerformance Float64) × Site
    recent_validator_stats limit s =
        if is_pos limit
        then (let (stats, w) = recent limit s.world in (stats, record s { world = w }))
        else ([], s)

    abbrev pub home_data : List (ValidatorPerformance Float64) → TemplateData Float64
    home_data stats = record {
      title = codes "OctoPi — Home";
      body_class = "home";
      is_demo = false;
      wallet = none;
      recent_vals = stats;
    }

    -- handleHome
    unfoldable pub handle_home : String → Site → Reply × Site
    handle_home path s =
        if path == "/"
        then (let (stats, s') = recent_validator_stats (pos 6) s in
            (render_template templates "home" (home_data stats), s'))
        else (not_found_reply, s)

    abbrev pub demo_data : WalletData Float64 → TemplateData Float64
    demo_data view = record {
      title = codes "OctoPi — Demo Wallet";
      body_class = "wallet";
      is_demo = true;
      wallet = some view;
      recent_vals = [];
    }

    abbrev shown : Result (List ℕ) → Option Reply
    shown (err e) = none
    shown (ok chart) =
        some (render_template templates "wallet" (demo_data (demo_wallet_data fmt floats chart)))

    -- handleWalletDemo: `none` is the panic where the chart has no JSON.
    unfoldable pub handle_wallet_demo : Option Reply
    handle_wallet_demo = shown (host.marshal_chart (demo_chart fmt floats))

    abbrev pub wallet_data : WalletData Float64 → TemplateData Float64
    wallet_data view = record {
      title = codes "OctoPi — Wallet " ++ codes view.address;
      body_class = "wallet";
      is_demo = false;
      wallet = some view;
      recent_vals = [];
    }

    -- What `handleWallet` writes for its answer.
    unfoldable pub reply_of : Response Float64 → Option Reply
    reply_of Response.not_found = some not_found_reply
    reply_of (Response.http_error text status) = some (error_reply text status)
    reply_of Response.demo_page = handle_wallet_demo
    reply_of (Response.wallet_page view) =
        some (render_template templates "wallet" (wallet_data view))

    abbrev pub with_state : Site → Option Reply → Option (Reply × Site)
    with_state s none = none
    with_state s (some reply) = some (reply, s)

    abbrev pub answered : Option (Response Float64 × Site) → Option (Reply × Site)
    answered none = none
    answered (some (answer, s)) = with_state s (reply_of answer)

    -- The handlers of the package behind the mux. `none` is a panic.
    unfoldable pub handle : Route → String → Site → Option (Reply × Site)
    handle home path s = some (handle_home path s)
    handle demo path s = with_state s handle_wallet_demo
    handle wallet path s = answered (handle_wallet fmt floats net pkg seen host path s)
    handle elsewhere path s = some ([], s)

    abbrev pub metered : Counter → Option (Reply × Site) → Option (Reply × Site × Counter)
    metered counter none = none
    metered counter (some (reply, s)) =
        let (rec, s', counter') =
          with_response_metrics (λ (r : Reply) (t : Site). (headers r, t)) reply s counter in
        some (reply, s', counter')

    abbrev unmetered : Counter → Option (Reply × Site) → Option (Reply × Site × Counter)
    unmetered counter none = none
    unmetered counter (some (reply, s)) = some (reply, s, counter)

    abbrev pub through : Route → Counter → Option (Reply × Site) → Option (Reply × Site × Counter)
    through elsewhere counter answer = unmetered counter answer
    through home counter answer = metered counter answer
    through demo counter answer = metered counter answer
    through wallet counter answer = metered counter answer

    -- The handler that `NewServer` gives, on the path of a request, with the counter of responses.
    unfoldable pub serve : String → Site → Counter → Option (Reply × Site × Counter)
    serve path s counter = through (route path) counter (handle (route path) path s)
