-- ===== src/Tips/Client.antt =====
-- solana_client.go: the operations of the interface `SolanaClient` that the collection of tips
-- calls, and the state of the network behind them; jito_tips.go: `fetchTransactions`.
use Prim.Native.String.{◌++◌ as join}
use go_octopi.Base.{ℕ, Bool, Option, List, [], ◌∷◌, String, Dict, insert, if◌then◌else◌, String-Eq}
use go_octopi.Base.Fault.{Error, wrap, message, Result, ok, err}
use go_octopi.Base.Text.{codes, contains}
use go_octopi.Solana.Types.{SignatureInfo, TransactionDetail}

-- A call takes the state of the world, and gives its result with the new state. `cancelled` is
-- `ctx.Err()`, `sleep` is `time.Sleep`.
pub record Client : Type 1 where
  pub World : Type 0
  pub cancelled : World → Option Error
  pub sleep : ℕ → World → World
  pub get_signatures_for_address : String → ℕ → String → World → Result (List SignatureInfo) × World
  pub get_transactions :
      List String → World → Result (Dict String (Option TransactionDetail)) × World
  pub get_transaction : String → World → Result (Option TransactionDetail) × World

-- isBatchUnavailableError
unfoldable pub is_batch_unavailable_error : Error → Bool
unfolding message contains
is_batch_unavailable_error e =
    contains (message e) (codes "Batch requests are only available for paid plans")

module _ (client : Client) where
  open client use {World, get_transactions, get_transaction}

  abbrev pub Details : Type 0
  Details = Dict String (Option TransactionDetail)

  -- The loop of `fetchTransactions` over single requests.
  unfoldable pub fetch_each : List String → Details → World → Result Details × World
  unfolding insert
  fetch_each [] found w = (ok found, w)
  fetch_each (sig ∷ sigs) found w =
      let (reply, w') = get_transaction sig w in
      elim reply [
        | ok detail ↦ fetch_each sigs (insert sig detail found) w'
        | err e ↦ (err (wrap (join "getTransaction " sig) e), w')
      ]

  -- fetchTransactions
  unfoldable pub fetch_transactions : List String → World → Result Details × World
  unfolding fetch_each is_batch_unavailable_error
  fetch_transactions [] w = (ok [], w)
  fetch_transactions (sig ∷ sigs) w =
      let (reply, w') = get_transactions (sig ∷ sigs) w in
      elim reply [
        | ok found ↦ (ok found, w')
        | err e ↦
            if is_batch_unavailable_error e then fetch_each (sig ∷ sigs) [] w' else (err e, w')
      ]
