-- ===== src/Solana/Calls/Retries.antt =====
-- solana_client.go: how the loop of `doRPCRequest` ends.
use go_octopi.Base.{ℕ, zero, suc, ◌<◌, ◌≡◌, refl, none, some, List, arith}
use go_octopi.Base.Fault.{Error, Result, ok, err}
use go_octopi.Solana.Rpc.{Transport, HttpResponse, retry_delay, do_rpc_request}

module _ (net : Transport) (payload : List ℕ) where
  open net use {World, send, wait}

  -- What the network does to a request that is sent at a world, with the number of times that it is
  -- sent again.
  pub data Settles : ℕ → World → Result HttpResponse → Type 0 where
    fails : {w : World} (e : Error) → (send payload w).0 ≡ err e → Settles zero w (err e)
    answers :
        {w : World} (resp : HttpResponse)
        → (send payload w).0 ≡ ok resp
        → retry_delay net resp (send payload w).1 ≡ none
        → Settles zero w (ok resp)
    cancels :
        {w : World} (resp : HttpResponse) (delay : ℕ) (e : Error)
        → (send payload w).0 ≡ ok resp
        → retry_delay net resp (send payload w).1 ≡ some delay
        → (wait delay (send payload w).1).0 ≡ some e
        → Settles zero w (err e)
    throttles :
        {n : ℕ} {w : World} {r : Result HttpResponse} (resp : HttpResponse) (delay : ℕ)
        → (send payload w).0 ≡ ok resp
        → retry_delay net resp (send payload w).1 ≡ some delay
        → (wait delay (send payload w).1).0 ≡ none
        → Settles n (wait delay (send payload w).1).1 r
        → Settles (suc n) w r

  -- A request that settles after some retries returns what it settles to, with any fuel above their
  -- number: the loop is left at the first reply that asks for no retry, at the first transport error,
  -- and when the context ends a wait.
  pub do_rpc_request-Settles :
      (fuel : ℕ) {n : ℕ} {w : World} {r : Result HttpResponse}
      → Settles n w r
      → n < fuel
      → (w' : World) × (do_rpc_request net fuel payload w ≡ some (r, w'))
  unfolding do_rpc_request
  do_rpc_request-Settles zero s h = absurd (omega arith)
  do_rpc_request-Settles (suc fuel) {w = w} (fails e failed) h = ((send payload w).1, ground arith)
  do_rpc_request-Settles (suc fuel) {w = w} (answers resp replied final) h =
      ((send payload w).1, ground arith)
  do_rpc_request-Settles (suc fuel) {w = w} (cancels resp delay e replied again cancelled) h =
      ((wait delay (send payload w).1).1, ground arith)
  do_rpc_request-Settles (suc fuel) {w = w} (throttles resp delay replied again waited s) h =
      let (w', returned) = do_rpc_request-Settles fuel s (omega arith) in (w', ground arith)

  -- A server that throttles at every world, each time with a delay that the context lets pass.
  pub record AlwaysThrottles : Type 0 where
    pub response : World → HttpResponse
    pub delay : World → ℕ
    pub replied : (w : World) → (send payload w).0 ≡ ok (response w)
    pub again : (w : World) → retry_delay net (response w) (send payload w).1 ≡ some (delay w)
    pub waited : (w : World) → (wait (delay w) (send payload w).1).0 ≡ none

  -- Against such a server the loop never returns: there is no limit on the retries.
  pub do_rpc_request-AlwaysThrottles :
      AlwaysThrottles → (fuel : ℕ) (w : World) → do_rpc_request net fuel payload w ≡ none
  unfolding do_rpc_request
  do_rpc_request-AlwaysThrottles t zero w = refl
  do_rpc_request-AlwaysThrottles t (suc fuel) w = ground (
    arith,
    t.replied w,
    t.again w,
    t.waited w,
    do_rpc_request-AlwaysThrottles t fuel (wait (t.delay w) (send payload w).1).1,
  )
