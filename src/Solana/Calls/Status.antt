-- ===== src/Solana/Calls/Status.antt =====
-- solana_client.go: when a call of the client succeeds.
use go_octopi.Base.{
  ℕ, ◌<◌, ◌≡◌, Option, none, some, List, [], ◌∷◌, String, arith, Option-cases, inl, inr,
}
use go_octopi.Base.Fault.{Result, ok, err, Result-cases}
use go_octopi.Solana.Calls.{call, read_body, balance_params, get_balance}
use go_octopi.Solana.Replies.{read_balance}
use go_octopi.Solana.Rpc.{
  Transport, State, HttpResponse, continue, lift, body_of, post, post_requests, after_send,
  do_rpc_request, new_rpc_request_id,
}
use go_octopi.Solana.Wire.{RpcRequest, RpcResponse, RpcBalanceResult, Items, Codec}

module _ (net : Transport) (codec : Codec) (fuel : ℕ) where
  open net use {World}

  -- The last reply that the server gave to the requests, sent at a world.
  pub record Answered (requests : List RpcRequest) (w : World) (resp : HttpResponse) : Type 0 where
    pub payload : List ℕ
    pub after : World
    pub encoded : codec.encode requests ≡ ok payload
    pub replied : do_rpc_request net fuel payload w ≡ some (ok resp, after)

  after_send-ok :
      (r : Result HttpResponse × World) (s s' : State net) (resp : HttpResponse)
      → after_send net codec fuel r s ≡ some (ok resp, s')
      → r ≡ (ok resp, s'.world)
  unfolding after_send
  after_send-ok (ok x, w) s s' resp h = ground arith
  after_send-ok (err e, w) s s' resp h = absurd (ground arith)

  post_requests-Answered :
      (label : String) (requests : List RpcRequest) (s s' : State net) (resp : HttpResponse)
      → post_requests net codec fuel label requests s ≡ some (ok resp, s')
      → Answered requests s.world resp
  unfolding post_requests
  post_requests-Answered label requests s s' resp h = elim (Result-cases (codec.encode requests)) [
    | inl (e, failed) ↦ absurd (ground arith)
    | inr (payload, encoded) ↦ elim (Option-cases (do_rpc_request net fuel payload s.world)) [
      | inl forever ↦ absurd (ground arith)
      | inr (r, returned) ↦
          let same = after_send-ok r s s' resp (ground arith) in
          record {
            payload = payload;
            after = s'.world;
            encoded = encoded;
            replied = rw (← same) returned;
          }
    ]
  ]

  body_of-ok :
      (resp : HttpResponse) (body : List ℕ)
      → body_of net resp ≡ ok body
      → (resp.status < 300) × (body ≡ resp.body)
  unfolding body_of
  body_of-ok resp body h = (ground arith, ground arith)

  -- A call succeeds only with a body that a reply below status 300 carried.
  pub record Read {A : Type 0} (method : String) (params : Items) (read : List ℕ → Result A)
      (s : State net) (a : A) : Type 0 where
    pub response : HttpResponse
    pub answered :
        Answered
          (record { id = (new_rpc_request_id net s).0; method = method; params = params } ∷ [])
          (new_rpc_request_id net s).1.world
          response
    pub accepted : response.status < 300
    pub reading : read response.body ≡ ok a

  read_body-ok :
      {A : Type 0} (read : List ℕ → Result A) (resp : HttpResponse) (a : A)
      → read_body read (body_of net resp) ≡ ok a
      → (resp.status < 300) × (read resp.body ≡ ok a)
  read_body-ok read resp a h = elim (Result-cases (body_of net resp)) [
    | inl (e, refused) ↦ absurd (ground arith)
    | inr (body, accepted) ↦
        let facts = body_of-ok resp body accepted in (facts.0, rw (← facts.1) (rw accepted at h))
  ]

  continue-ok :
      {A : Type 0} (read : List ℕ → Result A) (r : Result HttpResponse × State net) (s' : State net)
      (a : A)
      → continue net (λ resp t. lift net (read_body read (body_of net resp)) t) r ≡ some (ok a, s')
      → (resp : HttpResponse) × (r ≡ (ok resp, s')) × (resp.status < 300) × (read resp.body ≡ ok a)
  continue-ok read (err e, t) s' a h = absurd (ground arith)
  continue-ok read (ok resp, t) s' a h =
      let facts = read_body-ok read resp a (ground arith) in (resp, ground arith, facts.0, facts.1)

  call-Read :
      {A : Type 0} (label method : String) (params : Items) (read : List ℕ → Result A)
      (s s' : State net) (a : A)
      → call net codec fuel label method params read s ≡ some (ok a, s')
      → Read method params read s a
  unfolding call post
  call-Read label method params read s s' a h =
      let req : RpcRequest = record {
        id = (new_rpc_request_id net s).0;
        method = method;
        params = params;
      } in
      elim (Option-cases (post net codec fuel label method params s)) [
        | inl forever ↦ absurd (ground arith)
        | inr (r, returned) ↦
            let (resp, same, accepted, reading) = continue-ok read r s' a (ground arith) in
            record {
              response = resp;
              answered =
                  post_requests-Answered label (req ∷ []) (new_rpc_request_id net s).1 s' resp
                    (ground arith);
              accepted = accepted;
              reading = reading;
            }
      ]

  read_balance-ok :
      (body : List ℕ) (lamports : ℕ)
      → read_balance codec body ≡ ok lamports
      → (reply : RpcResponse (Option RpcBalanceResult)) × (balance : RpcBalanceResult)
        × (codec.balance body ≡ ok reply)
        × (reply.failure ≡ none)
        × (reply.result ≡ some balance)
        × (lamports ≡ balance.value)
  unfolding read_balance
  read_balance-ok body lamports h = elim (Result-cases (codec.balance body)) [
    | inl (e, malformed) ↦ absurd (ground arith)
    | inr (reply, decoded) ↦ elim (Option-cases reply.failure) [
      | inr (e, failed) ↦ absurd (ground arith)
      | inl fine ↦ elim (Option-cases reply.result) [
        | inl missing ↦ absurd (ground arith)
        | inr (b, result) ↦ (reply, b, decoded, fine, result, ground arith)
      ]
    ]
  ]

  -- `GetBalance` succeeds only with the value of a reply to its request: one whose status is below
  -- 300, which decodes, carries no RPC error, and has a result.
  pub get_balance-Read :
      (address : String) (s s' : State net) (lamports : ℕ)
      → get_balance net codec fuel address s ≡ some (ok lamports, s')
      → (resp : HttpResponse) × (reply : RpcResponse (Option RpcBalanceResult))
        × (balance : RpcBalanceResult) × Answered
            (record {
              id = (new_rpc_request_id net s).0;
              method = "getBalance";
              params = balance_params address;
            }
              ∷ [])
            (new_rpc_request_id net s).1.world
            resp
        × (resp.status < 300)
        × (codec.balance resp.body ≡ ok reply)
        × (reply.failure ≡ none)
        × (reply.result ≡ some balance)
        × (lamports ≡ balance.value)
  unfolding get_balance
  get_balance-Read address s s' lamports h =
      let r =
        call-Read "encode request" "getBalance" (balance_params address) (read_balance codec) s s'
          lamports h in
      let (reply, balance, decoded, fine, result, value) =
        read_balance-ok r.response.body lamports r.reading in
      (r.response, reply, balance, r.answered, r.accepted, decoded, fine, result, value)
