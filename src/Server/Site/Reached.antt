-- ===== src/Server/Site/Reached.antt =====
-- server.go: the states that a server comes to from `NewServer` on, through requests of any of its pages.
use go_octopi.Base.{
  ◌≡◌, refl, Option, none, some, List, [], ◌∷◌, String, String-Eq, ◌==◌, arith, inl, inr,
  Bool-cases, Option-cases,
}
use go_octopi.Base.Int.{pos}
use go_octopi.Base.Time.{Time}
use go_octopi.Limiter.Registry.{Registry}
use go_octopi.Rewards.{Formats}
use go_octopi.Server.Address.{trim_prefix}
use go_octopi.Server.Floats.{Floats}
use go_octopi.Server.Metrics.{Counter, with_response_metrics}
use go_octopi.Server.Network.{Network}
use go_octopi.Server.Pages.{Host, Response, World, handle_wallet}
use go_octopi.Server.Pages.Reachable.{
  PageOf, Reachable, started, moved, served, handle_wallet-PageOf,
}
use go_octopi.Server.Site.{
  Reply, Route, home, demo, wallet, elsewhere, route, Templates, Recent, Site,
  recent_validator_stats, handle_home, reply_of, with_state, handle, through, serve,
}
use go_octopi.Server.Site.Setup.{
  ServerOption, configure, client_of, new_default_solana_client, new_site, new_server,
}
use go_octopi.Server.WalletCache.{
  LruPackage, LruLaws, WalletSummaryEntry, Environment, new_wallet_summary_cache,
}
use go_octopi.Solana.Client.{RpcSolanaClient}

module _ (fmt : Formats) (floats : Floats (Formats.Float64 fmt))
    (net : Network (Formats.Float64 fmt))
    (pkg : LruPackage (WalletSummaryEntry (Formats.Float64 fmt))) (seen : LruPackage (Unit {0}))
    (laws : LruLaws pkg) (host : Host (Formats.Float64 fmt) (World fmt floats net pkg seen))
    (templates : Templates (Formats.Float64 fmt))
    (recent : Recent fmt floats net pkg seen host templates) where
  abbrev At : Type 0
  At = Site fmt floats net pkg seen host templates

  abbrev Reached : At → Type 0
  Reached s = Reachable fmt floats net pkg seen laws host s

  -- The requests of a run, in their order; a panic ends it.
  unfoldable pub serve_all : List String → At → Counter → Option (At × Counter)
  serve_all [] s counter = some (s, counter)
  serve_all (path ∷ paths) s counter =
      elim (serve fmt floats net pkg seen host templates recent path s counter) [
        | none ↦ none
        | some (reply, s', counter') ↦ serve_all paths s' counter'
      ]

  handle_home-Reached :
      (path : String) (s : At)
      → Reached s
      → Reached (handle_home fmt floats net pkg seen host templates recent path s).1
  unfolding handle_home recent_validator_stats
  handle_home-Reached path s h = elim (Bool-cases (path == "/")) [
    | inl root ↦ rw root (moved (recent (pos 6) s.world).1 h)
    | inr other ↦ rw other h
  ]

  abbrev Stays : Option (Reply × At) → Type 0
  Stays none = Unit
  Stays (some (reply, s)) = Reached s

  with_state-Reached :
      (s : At) (shown : Option Reply)
      → Reached s
      → Stays (with_state fmt floats net pkg seen host templates recent s shown)
  with_state-Reached s none h = tt
  with_state-Reached s (some reply) h = h

  handle-Reached :
      (r : Route) (path : String) (s : At)
      → Reached s
      → Stays (handle fmt floats net pkg seen host templates recent r path s)
  unfolding handle
  handle-Reached home path s h = handle_home-Reached path s h
  handle-Reached demo path s h = with_state-Reached s _ h
  handle-Reached wallet path s h =
      elim (Option-cases (handle_wallet fmt floats net pkg seen host path s)) [
        | inl panic ↦ rw panic tt
        | inr ((answer, t), found) ↦ rw found (
            with_state-Reached t (reply_of fmt floats net pkg seen host templates recent answer)
              (served path answer h found))
      ]
  handle-Reached elsewhere path s h = h

  through-Reached :
      (r : Route) (counter counter' : Counter) (answer : Option (Reply × At)) (reply : Reply)
      (s : At)
      → Stays answer
      → through fmt floats net pkg seen host templates recent r counter answer
        ≡ some (reply, s, counter')
      → Reached s
  unfolding with_response_metrics
  through-Reached home counter counter' none reply s h e = absurd (ground arith)
  through-Reached home counter counter' (some (given, t)) reply s h e =
      let same : t ≡ s = ground arith in rw (← same) h
  through-Reached demo counter counter' none reply s h e = absurd (ground arith)
  through-Reached demo counter counter' (some (given, t)) reply s h e =
      let same : t ≡ s = ground arith in rw (← same) h
  through-Reached wallet counter counter' none reply s h e = absurd (ground arith)
  through-Reached wallet counter counter' (some (given, t)) reply s h e =
      let same : t ≡ s = ground arith in rw (← same) h
  through-Reached elsewhere counter counter' none reply s h e = absurd (ground arith)
  through-Reached elsewhere counter counter' (some (given, t)) reply s h e =
      let same : t ≡ s = ground arith in rw (← same) h

  serve_all-Reached :
      (paths : List String) (s s' : At) (counter counter' : Counter)
      → Reached s
      → serve_all paths s counter ≡ some (s', counter')
      → Reached s'
  unfolding serve_all serve
  serve_all-Reached [] s s' counter counter' h e = let same : s ≡ s' = ground arith in rw (← same) h
  serve_all-Reached (path ∷ paths) s s' counter counter' h e =
      elim (Option-cases (serve fmt floats net pkg seen host templates recent path s counter)) [
        | inl panic ↦ absurd (ground arith)
        | inr ((reply, t, count), found) ↦
            serve_all-Reached paths t s' count counter'
              (through-Reached (route path) counter count _ reply t
                (handle-Reached (route path) path s h) found)
              (ground arith)
      ]

  fresh :
      (env : Environment) (w : World fmt floats net pkg seen)
      → (new_site fmt floats net pkg seen host env w).wallet_cache
        ≡ new_wallet_summary_cache pkg env
  unfolding new_site
  fresh env w = refl

  module _ {C L : Type 0} (url : String → String) (hostname : String → Option String)
      (inject : RpcSolanaClient floats → C) (default_logger : L) where
    new_server-Reached :
        (env : Environment) (now : Time) (registry : Registry) (opts : List (ServerOption C L))
        (w : World fmt floats net pkg seen) (chosen : C × L) (s : At)
        → new_server fmt floats net pkg seen host url hostname inject default_logger env now
            registry opts w
          ≡ some (chosen, s)
        → Reached s
    unfolding new_server
    new_server-Reached env now registry opts w chosen s e =
        elim (Option-cases (
          configure
            (client_of inject (new_default_solana_client floats url hostname env now registry))
            default_logger opts)) [
              | inl panic ↦ absurd (ground arith)
              | inr (made, found) ↦
                  let same : new_site fmt floats net pkg seen host env w ≡ s = ground arith in
                  rw (← same)
                    (started env (new_site fmt floats net pkg seen host env w) (fresh env w))
            ]

    -- From `NewServer` on, with any options and through any requests that do not panic, a page of a
    -- wallet is that of the address in the path, and its rows stand as they were shown at some time:
    -- in that time's window, none with the zero time, newest first.
    pub serve_all-PageOf :
        (env : Environment) (now : Time) (registry : Registry) (opts : List (ServerOption C L))
        (w : World fmt floats net pkg seen) (chosen : C × L) (first last next : At)
        (paths : List String) (counter counter' : Counter) (path : String)
        (answer : Response (Formats.Float64 fmt))
        → new_server fmt floats net pkg seen host url hostname inject default_logger env now
            registry opts w
          ≡ some (chosen, first)
        → serve_all paths first counter ≡ some (last, counter')
        → handle_wallet fmt floats net pkg seen host path last ≡ some (answer, next)
        → PageOf (trim_prefix path "/wallet/") answer
    serve_all-PageOf env now registry opts w chosen first last next paths counter counter' path
          answer made run shown =
        let reached =
          serve_all-Reached paths first last counter counter'
            (new_server-Reached env now registry opts w chosen first made) run in
        (handle_wallet-PageOf fmt floats net pkg seen laws host path last next answer reached
          shown).0
