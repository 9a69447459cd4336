-- ===== src/Solana/Replies.antt =====
-- solana_client.go: what each call of the client makes of the body of a reply.
pub mod Stakes
use go_octopi.Base.{
  ℕ, Bool, true, false, ◌||◌, Option, none, some, List, [], ◌∷◌, ◌++◌, String, map, if◌then◌else◌,
  ◌==◌, String-Eq, nat_eq, leb, take,
}
use go_octopi.Base.Fault.{
  Error, plain, bad_status, events_unsupported, Result, ok, err, ◌>>=◌, ◌>>◌, wrapping, present,
  require,
}
use go_octopi.Base.Int.{ℤ, pos, negsuc}
use go_octopi.Base.Text.{codes, contains, lower}
use go_octopi.Base.Time.{Time, unix}
use go_octopi.Solana.Convert.{convert_transaction_result}
use go_octopi.Solana.Number.{json_number_to_uint64}
use go_octopi.Solana.Rpc.{no_error, HttpResponse}
use go_octopi.Solana.Types.{
  StakeAccount, SignatureInfo, TransactionDetail, InflationReward, VoteAccount, EpochInfo,
}
use go_octopi.Solana.Wire.{
  Codec, RpcError, RpcResponse, RpcBalanceResult, RpcProgramAccount, RpcStakeAccountParsed,
  RpcSignatureInfo, RpcTransactionResult, RpcInflationReward, RpcVoteAccount, RpcVoteAccountsBody,
  RpcEpochInfo,
}

-- The part of `ListStakeAccounts` past the decoding: an account is passed over unless it is parsed, the
-- owner may stake or withdraw, and its stake is a number.
unfoldable pub stake_account_of : String → String → RpcStakeAccountParsed → Result StakeAccount
stake_account_of owner pubkey p =
    if (p.staker == owner) || (p.withdrawer == owner)
    then (json_number_to_uint64 p.stake >>= λ lamports. ok (record {
      address = pubkey;
      delegated_lamports = lamports;
      state = p.account_type;
      vote_account = p.voter;
      withdraw_authority = p.withdrawer;
    }))
    else err (plain "not the owner's")

abbrev pub read_parsed : String → RpcProgramAccount → Option StakeAccount
read_parsed owner a = elim a.parsed [
  | none ↦ none
  | some p ↦ elim (stake_account_of owner a.pubkey p) [ ok account ↦ some account | err e ↦ none ]
]

abbrev pub cons_some : Option StakeAccount → List StakeAccount → List StakeAccount
cons_some none l = l
cons_some (some a) l = a ∷ l

unfoldable pub stake_accounts_of : String → List RpcProgramAccount → List StakeAccount
stake_accounts_of owner [] = []
stake_accounts_of owner (a ∷ as') = cons_some (read_parsed owner a) (stake_accounts_of owner as')

unfoldable pub signature_info_of : RpcSignatureInfo → SignatureInfo
signature_info_of i = record { signature = i.signature; slot = i.slot; block_time = i.block_time }

unfoldable pub inflation_reward_of : Option RpcInflationReward → Option InflationReward
inflation_reward_of none = none
inflation_reward_of (some r) = some (record {
  epoch = r.epoch;
  effective_slot = r.effective_slot;
  amount = r.amount;
  post_balance = r.post_balance;
  commission = r.commission;
})

unfoldable pub vote_account_of : RpcVoteAccount → VoteAccount
vote_account_of v = record { vote_pubkey = v.vote_pubkey; node_pubkey = v.node_pubkey }

module _ (codec : Codec) where
  -- GetBalance
  unfoldable pub read_balance : List ℕ → Result ℕ
  read_balance body = do
    reply ← wrapping "decode response" (codec.balance body)
    no_error reply.failure
    r ← present reply.result (plain "rpc response missing result")
    ok r.value

  -- ListStakeAccounts
  unfoldable pub read_stake_accounts : String → List ℕ → Result (List StakeAccount)
  read_stake_accounts owner body = do
    reply ← wrapping "decode stake response" (codec.program_accounts body)
    no_error reply.failure
    ok (stake_accounts_of owner reply.result)

  -- GetSignaturesForAddress
  unfoldable pub read_signatures : List ℕ → Result (List SignatureInfo)
  read_signatures body = do
    reply ← wrapping "decode signatures response" (codec.signatures body)
    no_error reply.failure
    ok (map signature_info_of reply.result)

  -- GetTransaction
  unfoldable pub read_transaction : List ℕ → Result TransactionDetail
  read_transaction body = do
    reply ← wrapping "decode transaction response" (codec.transaction body)
    no_error reply.failure
    r ← present reply.result (plain "transaction not found")
    ok (convert_transaction_result r)

  -- GetInflationReward
  unfoldable pub read_inflation_reward : List ℕ → Result (List (Option InflationReward))
  read_inflation_reward body = do
    reply ← wrapping "decode inflation reward response" (codec.inflation_reward body)
    no_error reply.failure
    ok (map inflation_reward_of reply.result)

  -- GetVoteAccounts
  unfoldable pub read_vote_accounts : List ℕ → Result (List VoteAccount)
  read_vote_accounts body = do
    reply ← wrapping "decode vote accounts response" (codec.vote_accounts body)
    no_error reply.failure
    r ← present reply.result (plain "vote accounts response missing result")
    ok (map vote_account_of r.current ++ map vote_account_of r.delinquent)

  -- GetEpochInfo
  unfoldable pub read_epoch_info : List ℕ → Result EpochInfo
  read_epoch_info body = do
    reply ← wrapping "decode epoch info response" (codec.epoch_info body)
    no_error reply.failure
    r ← present reply.result (plain "epoch info missing result")
    ok (record {
      epoch = r.epoch;
      absolute_slot = r.absolute_slot;
      slot_index = r.slot_index;
      slots_in_epoch = r.slots_in_epoch;
    })

  -- getBlockTime
  unfoldable pub read_block_time : List ℕ → Result Time
  read_block_time body = do
    reply ← wrapping "decode block time response" (codec.block_time body)
    no_error reply.failure
    t ← present reply.result (plain "block time result missing")
    ok (unix t)
