-- ===== src/Solana/Calls.antt =====
-- solana_client.go: the calls of the client.
pub mod Status
pub mod Retries
pub mod Returns
use go_octopi.Base.{
  ℕ, Bool, true, false, ◌&&◌, ◌||◌, Option, none, some, List, [], ◌∷◌, String, map, if◌then◌else◌,
  ◌==◌, String-Eq, nat_eq, take,
}
use go_octopi.Base.Fault.{Error, events_unsupported, Result, ok, err}
use go_octopi.Base.Int.{ℤ, is_pos, to_ℕ}
use go_octopi.Base.Time.{Time}
use go_octopi.Solana.Replies.{
  read_balance, read_stake_accounts, read_signatures, read_transaction, read_inflation_reward,
  read_vote_accounts, read_epoch_info, read_block_time,
}
use go_octopi.Solana.Rpc.{Transport, State, Rpc, HttpResponse, continue, lift, body_of, post}
use go_octopi.Solana.Types.{
  StakeAccount, SignatureInfo, TransactionDetail, InflationReward, VoteAccount, EpochInfo,
}
use go_octopi.Solana.Wire.{
  Json, Items, Fields, text, number, list, object, nil, cons, end, field, strings, Codec,
}

abbrev pub confirmed : Fields → Fields
confirmed fs = field "commitment" (text "confirmed") fs

abbrev pub transaction_config : Json
transaction_config = object (
    field "encoding" (text "json")
      (confirmed (field "maxSupportedTransactionVersion" (number 0) end)))

abbrev pub balance_params : String → Items
balance_params address = cons (text address) (cons (object (confirmed end)) nil)

abbrev pub stake_program_id : String
stake_program_id = "Stake11111111111111111111111111111111111111"

abbrev pub read_body : {A : Type 0} → (List ℕ → Result A) → Result (List ℕ) → Result A
read_body read (ok body) = read body
read_body read (err e) = err e

module _ (net : Transport) (codec : Codec) (fuel : ℕ) where
  -- A request, the check of the reply's status, and the reading of its body.
  unfoldable pub call : {A : Type 0} → String → String → Items → (List ℕ → Result A) → Rpc net A
  call label method params read s = elim (post net codec fuel label method params s) [
    | none ↦ none
    | some r ↦ continue net (λ resp s'. lift net (read_body read (body_of net resp)) s') r
  ]

  unfoldable pub get_balance : String → Rpc net ℕ
  get_balance address =
      call "encode request" "getBalance" (balance_params address) (read_balance codec)

  unfoldable pub list_stake_accounts : String → Rpc net (List StakeAccount)
  list_stake_accounts owner =
      call "encode stake request" "getProgramAccounts"
        (cons (text stake_program_id) (
          cons
            (object (
              field "encoding" (text "jsonParsed") (
                confirmed (
                  field "filters"
                    (list (
                      cons
                        (object (
                          field "memcmp"
                            (object (field "offset" (number 12) (field "bytes" (text owner) end)))
                            end))
                        nil))
                    end))))
            nil))
        (read_stake_accounts codec owner)

  abbrev before_field : String → Fields
  before_field before = if before == "" then end else field "before" (text before) end

  -- GetSignaturesForAddress: a limit that is not positive becomes 1.
  unfoldable pub get_signatures_for_address : String → ℤ → String → Rpc net (List SignatureInfo)
  get_signatures_for_address address limit before =
      call "encode signatures request" "getSignaturesForAddress"
        (cons (text address) (
          cons
            (object (
              field "limit" (number (if is_pos limit then to_ℕ limit else 1))
                (confirmed (before_field before))))
            nil))
        (read_signatures codec)

  unfoldable pub get_transaction : String → Rpc net TransactionDetail
  get_transaction signature =
      call "encode transaction request" "getTransaction"
        (cons (text signature) (cons transaction_config nil)) (read_transaction codec)

  abbrev epoch_field : Option ℕ → Fields
  epoch_field none = end
  epoch_field (some e) = field "epoch" (number e) end

  -- GetInflationReward: no address, no request.
  unfoldable pub get_inflation_reward :
      List String → Option ℕ → Rpc net (List (Option InflationReward))
  get_inflation_reward [] epoch s = some (ok [], s)
  get_inflation_reward (a ∷ addresses) epoch s =
      call "encode inflation reward request" "getInflationReward"
        (cons (list (strings (a ∷ addresses))) (cons (object (confirmed (epoch_field epoch))) nil))
        (read_inflation_reward codec) s

  abbrev vote_field : String → Fields
  vote_field vote = if vote == "" then end else field "votePubkey" (text vote) end

  unfoldable pub get_vote_accounts : String → Rpc net (List VoteAccount)
  get_vote_accounts vote_pubkey =
      call "encode vote accounts request" "getVoteAccounts"
        (cons (object (confirmed (vote_field vote_pubkey))) nil) (read_vote_accounts codec)

  unfoldable pub get_epoch_info : Rpc net EpochInfo
  get_epoch_info = call "encode epoch info request" "getEpochInfo" nil (read_epoch_info codec)

  unfoldable pub get_block_time : ℕ → Rpc net Time
  get_block_time slot =
      call "encode block time request" "getBlockTime" (cons (number slot) nil)
        (read_block_time codec)
