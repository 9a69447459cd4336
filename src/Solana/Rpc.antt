-- ===== src/Solana/Rpc.antt =====
-- solana_client.go: `doRPCRequest` and the exchange that every call of the client makes.
use go_octopi.Base.{
  ℕ, zero, suc, Option, none, some, List, [], ◌∷◌, ◌++◌, String, leb, nat_eq, if◌then◌else◌, take,
  ◌==◌, String-Eq,
}
use go_octopi.Base.Fault.{Error, wrap, bad_status, rpc_error, Result, ok, err, wrapping}
use go_octopi.Base.Text.{digits, trim_space}
use go_octopi.Base.Word.{add64}
use go_octopi.Solana.Wire.{RpcRequest, RpcError, Items, Codec}

pub record HttpResponse : Type 0 where
  pub status : ℕ
  -- the header Retry-After
  pub retry_after : String
  pub body : List ℕ

-- What the program uses of net/http, context and time. `wait` is the `select` on a timer and on the
-- context: an error if the context is done first.
pub record Transport : Type 1 where
  pub World : Type 0
  pub unix_nano : World → ℕ
  pub send : List ℕ → World → Result HttpResponse × World
  pub wait : ℕ → World → Option Error × World
  -- strconv.ParseFloat of a number that is not negative, in nanoseconds
  pub parse_seconds : String → Option ℕ
  -- max(time.Until(t), 0) of the time t that http.ParseTime reads
  pub time_until : String → World → Option ℕ

module _ (net : Transport) where
  open net use {World, unix_nano, send, wait, parse_seconds, time_until}

  -- The client's state: `rpcRequestCounter` and the world.
  pub record State : Type 0 where
    pub counter : ℕ
    pub world : World

  -- newRPCRequestID
  unfoldable pub new_rpc_request_id : State → List ℕ × State
  new_rpc_request_id s =
      let counter = add64 s.counter 1 in
      (digits (unix_nano s.world) ++ b'-' ∷ digits counter, record s { counter = counter })

  abbrev pub or_else : Option ℕ → Option ℕ → Option ℕ
  or_else none b = b
  or_else (some a) b = some a

  -- retryAfterDelay
  unfoldable pub retry_after_delay : String → World → Option ℕ
  retry_after_delay value w =
      let trimmed = trim_space value in
      if trimmed == "" then none else or_else (parse_seconds trimmed) (time_until trimmed w)

  -- The delay after which a reply makes the client try again.
  unfoldable pub retry_delay : HttpResponse → World → Option ℕ
  retry_delay resp w = if nat_eq resp.status 429 then retry_after_delay resp.retry_after w else none

  -- doRPCRequest, with fuel for its endless loop: `none` is a loop that goes on.
  unfoldable pub do_rpc_request : ℕ → List ℕ → World → Option (Result HttpResponse × World)
  do_rpc_request zero payload w = none
  do_rpc_request (suc fuel) payload w =
      let (reply, w1) = send payload w in
      elim reply [
        | err e ↦ some (err e, w1)
        | ok resp ↦ elim (retry_delay resp w1) [
          | none ↦ some (ok resp, w1)
          | some delay ↦
              let (cancelled, w2) = wait delay w1 in
              elim cancelled [ some e ↦ some (err e, w2) | none ↦ do_rpc_request fuel payload w2 ]
        ]
      ]

  -- A call of the client: it may not return, may fail, and changes the state.
  abbrev pub Rpc : Type 0 → Type 0
  Rpc A = State → Option (Result A × State)

  abbrev pub continue : {A B : Type 0} → (A → Rpc B) → Result A × State → Option (Result B × State)
  continue f (ok a, s) = f a s
  continue f (err e, s) = some (err e, s)

  infixl 5 ◌>>=◌
  abbrev pub ◌>>=◌ : {A B : Type 0} → Rpc A → (A → Rpc B) → Rpc B
  ◌>>=◌ m f s = elim (m s) [ none ↦ none | some r ↦ continue f r ]

  abbrev pub lift : {A : Type 0} → Result A → Rpc A
  lift r s = some (r, s)

  -- `if resp.StatusCode >= 300`: an error that shows at most 2048 bytes of the body.
  unfoldable pub body_of : HttpResponse → Result (List ℕ)
  body_of resp =
      if leb 300 resp.status
      then err (bad_status "rpc status" resp.status (take 2048 resp.body))
      else ok resp.body

  module _ (codec : Codec) (fuel : ℕ) where
    unfoldable pub after_send :
        Result HttpResponse × World → State → Option (Result HttpResponse × State)
    after_send (r, w) s = some (wrapping "rpc request" r, record s { world = w })

    -- The requests are encoded, sent, and answered.
    unfoldable pub post_requests : String → List RpcRequest → Rpc HttpResponse
    post_requests label requests s = elim (codec.encode requests) [
      | err e ↦ some (err (wrap label e), s)
      | ok payload ↦ elim (do_rpc_request fuel payload s.world) [
        | none ↦ none
        | some r ↦ after_send r s
      ]
    ]

    -- A single request under a new identity.
    unfoldable pub post : String → String → Items → Rpc HttpResponse
    post label method params s =
        let (id, s') = new_rpc_request_id s in
        post_requests label (record { id = id; method = method; params = params } ∷ []) s'

-- `if rpcResp.Error != nil`
abbrev pub no_error : Option RpcError → Result (Unit {0})
no_error none = ok tt
no_error (some e) = err (rpc_error e.code e.message)
