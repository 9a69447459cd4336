-- ===== src/Server/Site/Sent.antt =====
-- server.go: the statuses that clients get, and those that are counted.
use go_octopi.Base.{
  ℕ, ◌≡◌, ◌≢◌, refl, Option, none, some, List, [], ◌∷◌, String, arith, ◌⊎◌, inl, inr, Bool-cases,
  String-Eq, ◌==◌,
}
use go_octopi.Base.Fault.{Error, Result-cases}
use go_octopi.Rewards.{Formats}
use go_octopi.Server.Demo.{demo_chart}
use go_octopi.Server.Floats.{Floats}
use go_octopi.Server.Metrics.{
  Counter, recorded, with_response_metrics, write_headers, write_header, increment_response_count,
}
use go_octopi.Server.Network.{Network}
use go_octopi.Server.Pages.{Host, Response, World, handle_wallet}
use go_octopi.Server.Site.{
  header, body, Reply, headers, error_reply, Route, home, demo, wallet, elsewhere, route, has_page,
  Templates, TemplateData, rendered, render_template, Recent, Site, handle_home, handle_wallet_demo,
  reply_of, handle, serve, with_state, answered, metered, through,
}
use go_octopi.Server.WalletCache.{LruPackage, WalletSummaryEntry}

-- The status that net/http sends: that of the first header, and 200 where the body comes first.
unfoldable pub sent : Reply → ℕ
sent [] = 200
sent (header status ∷ events) = status
sent (body bytes ∷ events) = 200

-- The status that the recorder counts.
abbrev pub counted : Reply → ℕ
counted reply = (recorded (headers reply)).status

module _ {F : Type 0} (templates : Templates F) where
  -- A template that fails behind its first output.
  pub record BrokenOff : Type 0 where
    pub page : String
    pub content : TemplateData F
    pub first : ℕ
    pub others : List ℕ
    pub error : Error
    pub fails : templates page content ≡ (first ∷ others, some error)

  -- The client gets the status that is counted, or it gets 200 where 500 is counted.
  abbrev pub Honest : Reply → Type 0
  Honest reply =
      (counted reply ≡ sent reply) ⊎ (BrokenOff × (sent reply ≡ 200) × (counted reply ≡ 500))

  error_reply-Honest : (text : String) (status : ℕ) → Honest (error_reply text status)
  unfolding headers sent write_headers write_header
  error_reply-Honest text status = inl refl

  rendered-Honest :
      (page : String) (content : TemplateData F) (out : List ℕ × Option Error)
      → templates page content ≡ out
      → Honest (rendered templates out)
  unfolding headers sent write_headers write_header
  rendered-Honest page content ([], none) e = inl refl
  rendered-Honest page content ([], some x) e = inl refl
  rendered-Honest page content (b ∷ bytes, none) e = inl refl
  rendered-Honest page content (b ∷ bytes, some x) e = inr (
    record { page = page; content = content; first = b; others = bytes; error = x; fails = e },
    refl,
    refl,
  )

  pub render_template-Honest :
      (page : String) (content : TemplateData F) → Honest (render_template templates page content)
  unfolding render_template
  render_template-Honest page content = elim (Bool-cases (has_page page)) [
    | inl there ↦ rw there (rendered-Honest page content (templates page content) refl)
    | inr missing ↦ rw missing (error_reply-Honest "template not found" 500)
  ]

module _ (fmt : Formats) (floats : Floats (Formats.Float64 fmt))
    (net : Network (Formats.Float64 fmt))
    (pkg : LruPackage (WalletSummaryEntry (Formats.Float64 fmt))) (seen : LruPackage (Unit {0}))
    (host : Host (Formats.Float64 fmt) (World fmt floats net pkg seen))
    (templates : Templates (Formats.Float64 fmt))
    (recent : Recent fmt floats net pkg seen host templates) where
  abbrev Answers : Type 0
  Answers = Option (Reply × Site fmt floats net pkg seen host templates)

  abbrev AllHonest : Answers → Type 0
  AllHonest none = Unit
  AllHonest (some (reply, s)) = Honest templates reply

  handle_home-Honest :
      (path : String) (s : Site fmt floats net pkg seen host templates)
      → Honest templates (handle_home fmt floats net pkg seen host templates recent path s).0
  unfolding handle_home
  handle_home-Honest path s = elim (Bool-cases (path == "/")) [
    | inl root ↦ rw root (render_template-Honest templates "home" _)
    | inr other ↦ rw other (error_reply-Honest templates "404 page not found" 404)
  ]

  abbrev Shows : Option Reply → Type 0
  Shows none = Unit
  Shows (some reply) = Honest templates reply

  handle_wallet_demo-Honest :
      Shows (handle_wallet_demo fmt floats net pkg seen host templates recent)
  unfolding handle_wallet_demo
  handle_wallet_demo-Honest = elim (Result-cases (host.marshal_chart (demo_chart fmt floats))) [
    | inl (e, fails) ↦ rw fails tt
    | inr (chart, made) ↦ rw made (render_template-Honest templates "wallet" _)
  ]

  reply_of-Honest :
      (answer : Response (Formats.Float64 fmt))
      → Shows (reply_of fmt floats net pkg seen host templates recent answer)
  unfolding reply_of
  reply_of-Honest Response.not_found = error_reply-Honest templates "404 page not found" 404
  reply_of-Honest (Response.http_error text status) = error_reply-Honest templates text status
  reply_of-Honest Response.demo_page = handle_wallet_demo-Honest
  reply_of-Honest (Response.wallet_page view) = render_template-Honest templates "wallet" _

  with_state-Honest :
      (s : Site fmt floats net pkg seen host templates) (shown : Option Reply)
      → Shows shown
      → AllHonest (with_state fmt floats net pkg seen host templates recent s shown)
  with_state-Honest s none h = tt
  with_state-Honest s (some reply) h = h

  answered-Honest :
      (answer : Option
        (Response (Formats.Float64 fmt) × Site fmt floats net pkg seen host templates))
      → AllHonest (answered fmt floats net pkg seen host templates recent answer)
  answered-Honest none = tt
  answered-Honest (some (answer, s)) = with_state-Honest s _ (reply_of-Honest answer)

  handle-Honest :
      (r : Route) (path : String) (s : Site fmt floats net pkg seen host templates)
      → AllHonest (handle fmt floats net pkg seen host templates recent r path s)
  unfolding handle headers sent write_headers write_header
  handle-Honest home path s = handle_home-Honest path s
  handle-Honest demo path s = with_state-Honest s _ handle_wallet_demo-Honest
  handle-Honest wallet path s = answered-Honest (handle_wallet fmt floats net pkg seen host path s)
  handle-Honest elsewhere path s = inl refl

  -- The counter behind a reply.
  abbrev pub CountedOnce : Counter → Reply → Counter → Type 0
  CountedOnce counter reply counter' =
      (counter' ≡ increment_response_count counter (sent reply))
      ⊎ (BrokenOff templates
          × (sent reply ≡ 200)
          × (counter' ≡ increment_response_count counter 500))

  metered-Once :
      (answer : Answers) (counter counter' : Counter) (reply : Reply)
      (s : Site fmt floats net pkg seen host templates)
      → AllHonest answer
      → metered fmt floats net pkg seen host templates recent counter answer
        ≡ some (reply, s, counter')
      → CountedOnce counter reply counter'
  unfolding with_response_metrics
  metered-Once none counter counter' reply s h e = absurd (ground arith)
  metered-Once (some (given, t)) counter counter' reply s h e =
      let same : given ≡ reply = ground arith in
      let left : increment_response_count counter (counted given) ≡ counter' = ground arith in
      elim h [
        | inl told ↦ inl (rw (← left, told, same) refl)
        | inr (broken, first, last) ↦ inr (broken, rw (← same) first, rw (← left, last) refl)
      ]

  -- A request that the server's own handlers answer counts once, under the status that the client gets;
  -- only where a template fails behind its first output the client gets 200 and 500 is counted.
  pub serve-CountedOnce :
      (path : String) (s s' : Site fmt floats net pkg seen host templates)
      (counter counter' : Counter) (reply : Reply)
      → route path ≢ elsewhere
      → serve fmt floats net pkg seen host templates recent path s counter
        ≡ some (reply, s', counter')
      → CountedOnce counter reply counter'
  unfolding serve
  serve-CountedOnce path s s' counter counter' reply own e =
      through_own (route path) own (handle-Honest (route path) path s) e
    where
      through_own :
          (r : Route)
          → r ≢ elsewhere
          → AllHonest (handle fmt floats net pkg seen host templates recent r path s)
          → through fmt floats net pkg seen host templates recent r counter
              (handle fmt floats net pkg seen host templates recent r path s)
            ≡ some (reply, s', counter')
          → CountedOnce counter reply counter'
      through_own home n h e = metered-Once _ counter counter' reply s' h e
      through_own demo n h e = metered-Once _ counter counter' reply s' h e
      through_own wallet n h e = metered-Once _ counter counter' reply s' h e
      through_own elsewhere n h e = absurd (n refl)
