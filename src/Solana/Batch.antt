-- ===== src/Solana/Batch.antt =====
-- solana_client.go: `GetTransactions`, its batches, and the exchange of one batch.
pub mod Cover
pub mod Answers
pub mod Returns
use go_octopi.Base.{
  ℕ, zero, suc, ◌+◌, ◌-◌, ◌/◌, Bool, true, false, ◌||◌, Option, none, some, List, [], ◌∷◌, ◌++◌,
  String, Dict, map, lookup, insert, length, take, drop, ltb, nat_eq, if◌then◌else◌, ◌==◌,
  String-Eq,
}
use go_octopi.Base.Fault.{Error, Result, ok, err, rpc_error, wrapping}
use go_octopi.Base.Int.{ℤ, is_pos, to_ℕ}
use go_octopi.Base.Text.{Bytes-Eq}
use go_octopi.Solana.Calls.{transaction_config}
use go_octopi.Solana.Convert.{convert_transaction_result}
use go_octopi.Solana.Rpc.{
  Transport, State, Rpc, HttpResponse, continue, lift, body_of, post_requests, new_rpc_request_id,
}
use go_octopi.Solana.Types.{TransactionDetail}
use go_octopi.Solana.Wire.{RpcRequest, RpcResponse, RpcTransactionResult, Codec, text, nil, cons}

unfoldable pub is_seen : String → List String → Bool
is_seen s [] = false
is_seen s (t ∷ ts) = (t == s) || is_seen s ts

-- The loop that drops empty and repeated signatures.
unfoldable pub unique_from : List String → List String → List String
unique_from seen [] = []
unique_from seen (sig ∷ sigs) = elim ((sig == "") || is_seen sig seen) [
  | true ↦ unique_from seen sigs
  | false ↦ sig ∷ unique_from (sig ∷ seen) sigs
]

unfoldable pub unique_signatures : List String → List String
unique_signatures sigs = unique_from [] sigs

-- The loop of `batchSignatures`, on fuel: with a positive size the rest falls in each round, so as many
-- rounds as there are signatures are enough.
unfoldable pub slices : ℕ → ℕ → List String → List (List String)
slices zero size sigs = []
slices (suc fuel) size [] = []
slices (suc fuel) size (s ∷ sigs) = take size (s ∷ sigs) ∷ slices fuel size (drop size (s ∷ sigs))

-- batchSignatures. A size that is not positive becomes the length; where that is 0 too, the division
-- for the capacity panics: `none`.
unfoldable pub batch_signatures : List String → ℤ → Option (List (List String))
batch_signatures sigs size =
    let n = if is_pos size then to_ℕ size else length sigs in
    if nat_eq n 0 then none else some (slices (length sigs) n sigs)

abbrev pub max_transaction_batch_len : ℤ
max_transaction_batch_len = ℤ.pos 10

abbrev pub Details : Type 0
Details = Dict String TransactionDetail

-- The signature of a request and its identity.
abbrev pub Lookup : Type 0
Lookup = List ℕ × String

module _ (net : Transport) where
  -- The loop that makes the requests of a batch.
  unfoldable pub number_requests : List String → State net → List Lookup × State net
  number_requests [] s = ([], s)
  number_requests (sig ∷ sigs) s =
      let (id, s1) = new_rpc_request_id net s in
      let (rest, s2) = number_requests sigs s1 in ((id, sig) ∷ rest, s2)

abbrev pub request_of : Lookup → RpcRequest
request_of l = record {
  id = l.0;
  method = "getTransaction";
  params = cons (text l.1) (cons transaction_config nil);
}

-- idToSignature
unfoldable pub id_to_signature : List Lookup → Dict (List ℕ) String → Dict (List ℕ) String
id_to_signature [] m = m
id_to_signature ((id, sig) ∷ ls) m = id_to_signature ls (insert id sig m)

abbrev pub text_of : Option String → String
text_of none = ""
text_of (some s) = s

-- One reply of a batch that is no error.
unfoldable pub note_reply : String → Option RpcTransactionResult → Details → Details
note_reply sig none found = found
note_reply sig (some r) found =
    if sig == "" then found else insert sig (convert_transaction_result r) found

-- The loop over the replies: the first error ends it.
unfoldable pub collect_replies :
    Dict (List ℕ) String
    → List (RpcResponse (Option RpcTransactionResult))
    → Details
    → Result Details
collect_replies ids [] found = ok found
collect_replies ids (item ∷ items) found = elim item.failure [
  | some e ↦ err (rpc_error e.code e.message)
  | none ↦ collect_replies ids items (note_reply (text_of (lookup item.id ids)) item.result found)
]

-- The copy of a batch's results into all results.
unfoldable pub merge : Details → Details → Details
merge [] results = results
merge ((sig, d) ∷ found) results = merge found (insert sig d results)

module _ (net : Transport) (codec : Codec) (fuel : ℕ) where
  abbrev pub decode_batch :
      Result (List ℕ) → Result (List (RpcResponse (Option RpcTransactionResult)))
  decode_batch (ok body) = wrapping "decode batch transaction response" (codec.transactions body)
  decode_batch (err e) = err e

  abbrev pub answer_batch :
      List Lookup → Result (List (RpcResponse (Option RpcTransactionResult))) → Result Details
  answer_batch ls (ok items) = collect_replies (id_to_signature ls []) items []
  answer_batch ls (err e) = err e

  -- fetchTransactionBatch past the numbering of its requests.
  unfoldable pub exchange_batch : List Lookup → Rpc net Details
  exchange_batch [] s = some (ok [], s)
  exchange_batch (l ∷ ls) s =
      elim (post_requests net codec fuel "encode batch transaction request"
        (map request_of (l ∷ ls)) s) [
          | none ↦ none
          | some r ↦
              continue net
                (λ resp t. lift net (answer_batch (l ∷ ls) (decode_batch (body_of net resp))) t) r
        ]

  -- fetchTransactionBatch
  unfoldable pub fetch_transaction_batch : List String → Rpc net Details
  fetch_transaction_batch sigs s =
      let (ls, s') = number_requests net (unique_signatures sigs) s in exchange_batch ls s'

  -- The loop of `GetTransactions` over the batches: an error drops all results.
  unfoldable pub fetch_batches : List (List String) → Details → Rpc net Details
  fetch_batches [] results s = some (ok results, s)
  fetch_batches (b ∷ bs) results s = elim (fetch_transaction_batch b s) [
    | none ↦ none
    | some r ↦ continue net (λ found t. fetch_batches bs (merge found results) t) r
  ]

  abbrev pub batches_or_none : Option (List (List String)) → List (List String)
  batches_or_none none = []
  batches_or_none (some bs) = bs

  -- GetTransactions. There is no batch where no signature is left, and the batch length is positive.
  unfoldable pub get_transactions : List String → Rpc net Details
  get_transactions sigs =
      fetch_batches
        (batches_or_none (batch_signatures (unique_signatures sigs) max_transaction_batch_len)) []
