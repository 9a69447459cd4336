-- ===== src/Solana/Batch/Returns.antt =====
-- solana_client.go: `GetTransactions` returns, where no request is retried as often as the fuel allows.
use go_octopi.Base.{ℕ, refl, List, [], ◌∷◌, String, map}
use go_octopi.Base.Fault.{ok}
use go_octopi.Solana.Batch.{
  Details, Lookup, unique_signatures, number_requests, request_of, exchange_batch,
  fetch_transaction_batch, merge, fetch_batches, get_transactions,
}
use go_octopi.Solana.Calls.Returns.{
  Patient, Returns, bind-Answered, continue-Answered, post_requests-Returns,
}
use go_octopi.Solana.Rpc.{Transport}
use go_octopi.Solana.Wire.{Codec}

module _ (net : Transport) (codec : Codec) (fuel : ℕ) (patient : Patient net fuel) where
  exchange_batch-Returns : (ls : List Lookup) → Returns (exchange_batch net codec fuel ls)
  unfolding exchange_batch
  exchange_batch-Returns [] s = ((ok [], s), refl)
  exchange_batch-Returns (l ∷ ls) s =
      bind-Answered _ _
        (post_requests-Returns net codec fuel patient "encode batch transaction request"
          (map request_of (l ∷ ls)) s)
        (continue-Answered net _ (λ resp t. (_, refl)))

  fetch_transaction_batch-Returns :
      (sigs : List String) → Returns (fetch_transaction_batch net codec fuel sigs)
  unfolding fetch_transaction_batch
  fetch_transaction_batch-Returns sigs s =
      let (ls, s') = number_requests net (unique_signatures sigs) s in exchange_batch-Returns ls s'

  fetch_batches-Returns :
      (bs : List (List String)) (results : Details)
      → Returns (fetch_batches net codec fuel bs results)
  unfolding fetch_batches
  fetch_batches-Returns [] results s = ((ok results, s), refl)
  fetch_batches-Returns (b ∷ bs) results s =
      bind-Answered _ _ (fetch_transaction_batch-Returns b s)
        (continue-Answered net _ (λ found. fetch_batches-Returns bs (merge found results)))

  pub get_transactions-Returns :
      (sigs : List String) → Returns (get_transactions net codec fuel sigs)
  unfolding get_transactions
  get_transactions-Returns sigs = fetch_batches-Returns _ []
