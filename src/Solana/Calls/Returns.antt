-- ===== src/Solana/Calls/Returns.antt =====
-- solana_client.go: the calls of the client return, where no request is retried as often as the fuel allows.
use go_octopi.Base.{ℕ, ◌<◌, ◌≡◌, refl, Option, none, some, List, [], ◌∷◌, String, arith}
use go_octopi.Base.Fault.{Error, Result, ok, err}
use go_octopi.Base.Int.{ℤ}
use go_octopi.Solana.Calls.{
  call, get_balance, list_stake_accounts, get_signatures_for_address, get_transaction,
  get_inflation_reward, get_vote_accounts, get_epoch_info,
}
use go_octopi.Solana.Calls.Retries.{Settles, do_rpc_request-Settles}
use go_octopi.Solana.Rpc.{
  Transport, State, Rpc, HttpResponse, continue, new_rpc_request_id, do_rpc_request, post_requests,
  post, after_send,
}
use go_octopi.Solana.Wire.{RpcRequest, Items, Codec}

-- Every request settles after fewer retries than the fuel.
abbrev pub Patient : Transport → ℕ → Type 0
Patient net fuel =
    (payload : List ℕ) (w : Transport.World net)
    → (n : ℕ) × (r : Result HttpResponse) × Settles net payload n w r × (n < fuel)

-- There is a result.
abbrev pub Answered {ℓ} : {A : Type ℓ} → Option A → Type ℓ
Answered {A} o = (a : A) × (o ≡ some a)

-- The call returns from every state.
abbrev pub Returns : {net : Transport} {A : Type 0} → Rpc net A → Type 0
Returns {net} m = (s : State net) → Answered (m s)

-- A call that returns, and goes on to one that returns.
pub bind-Answered {ℓ} :
    {A B : Type ℓ} (o : Option A) (f : A → Option B)
    → Answered o
    → ((a : A) → Answered (f a))
    → Answered (elim o as (λ _. Option B) [ none ↦ none | some a ↦ f a ])
bind-Answered none f (a, e) h = absurd (ground arith)
bind-Answered (some a) f _ h = h a

pub either-Answered {ℓ} :
    {A B : Type ℓ} (r : Result A) (f : Error → Option B) (g : A → Option B)
    → ((e : Error) → Answered (f e))
    → ((a : A) → Answered (g a))
    → Answered (elim r as (λ _. Option B) [ err e ↦ f e | ok a ↦ g a ])
either-Answered (err e) f g h k = h e
either-Answered (ok a) f g h k = k a

module _ (net : Transport) where
  pub continue-Answered :
      {A B : Type 0} (f : A → Rpc net B)
      → ((a : A) → Returns (f a))
      → (r : Result A × State net) → Answered (continue net f r)
  continue-Answered f h (ok a, s) = h a s
  continue-Answered f h (err e, s) = ((err e, s), refl)

  module _ (codec : Codec) (fuel : ℕ) (patient : Patient net fuel) where
    do_rpc_request-Answered :
        (payload : List ℕ) (w : Transport.World net) → Answered (do_rpc_request net fuel payload w)
    do_rpc_request-Answered payload w =
        let (n, r, settled, few) = patient payload w in
        let (w', returned) = do_rpc_request-Settles net payload fuel settled few in
        ((r, w'), returned)

    pub post_requests-Returns :
        (label : String) (requests : List RpcRequest)
        → Returns (post_requests net codec fuel label requests)
    unfolding post_requests after_send
    post_requests-Returns label requests s =
        either-Answered (codec.encode requests) _ _ (λ e. (_, refl))
          (λ payload. bind-Answered _ _ (do_rpc_request-Answered payload s.world) (λ r. (_, refl)))

    pub post-Returns :
        (label method : String) (params : Items) → Returns (post net codec fuel label method params)
    unfolding post
    post-Returns label method params s = post_requests-Returns label _ (new_rpc_request_id net s).1

    pub call-Returns :
        {A : Type 0} (label method : String) (params : Items) (read : List ℕ → Result A)
        → Returns (call net codec fuel label method params read)
    unfolding call
    call-Returns label method params read s =
        bind-Answered _ _ (post-Returns label method params s)
          (continue-Answered _ (λ resp t. (_, refl)))

    pub get_vote_accounts-Returns :
        (vote : String) → Returns (get_vote_accounts net codec fuel vote)
    unfolding get_vote_accounts
    get_vote_accounts-Returns vote = call-Returns _ _ _ _

    pub get_balance-Returns : (address : String) → Returns (get_balance net codec fuel address)
    unfolding get_balance
    get_balance-Returns address = call-Returns _ _ _ _

    pub list_stake_accounts-Returns :
        (owner : String) → Returns (list_stake_accounts net codec fuel owner)
    unfolding list_stake_accounts
    list_stake_accounts-Returns owner = call-Returns _ _ _ _

    pub get_signatures-Returns :
        (address : String) (limit : ℤ) (before : String)
        → Returns (get_signatures_for_address net codec fuel address limit before)
    unfolding get_signatures_for_address
    get_signatures-Returns address limit before = call-Returns _ _ _ _

    pub get_transaction-Returns : (sig : String) → Returns (get_transaction net codec fuel sig)
    unfolding get_transaction
    get_transaction-Returns sig = call-Returns _ _ _ _

    pub get_inflation_reward-Returns :
        (addresses : List String) (epoch : Option ℕ)
        → Returns (get_inflation_reward net codec fuel addresses epoch)
    unfolding get_inflation_reward
    get_inflation_reward-Returns [] epoch s = ((ok [], s), refl)
    get_inflation_reward-Returns (a ∷ addresses) epoch s = call-Returns _ _ _ _ s

    pub get_epoch_info-Returns : Returns (get_epoch_info net codec fuel)
    unfolding get_epoch_info
    get_epoch_info-Returns = call-Returns _ _ _ _
