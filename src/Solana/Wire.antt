-- ===== src/Solana/Wire.antt =====
-- solana_client.go: requests and replies as the JSON package sees them. The fields `jsonrpc` and
-- those that the program never reads are left out.
use go_octopi.Base.{ℕ, List, [], ◌∷◌, String, Option, none, some, nat_eq, if◌then◌else◌}
use go_octopi.Base.Fault.{Result, ok, err}
use go_octopi.Base.Int.{ℤ}
use go_octopi.Solana.Types.{TipDistributionEvent}

-- The parameters of a request.
mutual
  pub data Json : Type 0 where
    text : String → Json
    number : ℕ → Json
    list : Items → Json
    object : Fields → Json

  pub data Items : Type 0 where
    nil : Items
    cons : Json → Items → Items

  pub data Fields : Type 0 where
    end : Fields
    field : String → Json → Fields → Fields

abbrev pub strings : List String → Items
strings [] = nil
strings (s ∷ ss) = cons (text s) (strings ss)

pub record RpcRequest : Type 0 where
  pub id : List ℕ
  pub method : String
  pub params : Items

pub record RpcError : Type 0 where
  pub code : ℤ
  pub message : String

-- The reply of every method: a result of some type, or an error.
pub record RpcResponse (R : Type 0) : Type 0 where
  pub id : List ℕ
  pub result : R
  pub failure : Option RpcError

pub record RpcBalanceResult : Type 0 where
  pub value : ℕ

pub record RpcStakeAccountParsed : Type 0 where
  pub account_type : String
  pub staker : String
  pub withdrawer : String
  -- a json.Number: its text
  pub stake : List ℕ
  pub voter : String

pub record RpcProgramAccount : Type 0 where
  pub pubkey : String
  pub parsed : Option RpcStakeAccountParsed

pub record RpcSignatureInfo : Type 0 where
  pub signature : String
  pub slot : ℕ
  pub block_time : Option ℤ

-- A JSON text, or a JSON number below 2 ^ 16.
pub record RpcAccountReference : Type 0 where
  pub index : Option ℕ
  pub address : String

pub record RpcMessageInstruction : Type 0 where
  pub program_id_index : Option ℕ
  pub program_id : String
  pub accounts : List RpcAccountReference
  pub payload : String

pub record RpcInstruction : Type 0 where
  pub program_id_index : Option ℕ
  pub program_id : String
  pub accounts : List RpcAccountReference
  pub payload : String
  pub program : String
  pub stack_height : Option ℤ

pub record RpcInnerInstruction : Type 0 where
  pub index : ℕ
  pub instructions : List RpcInstruction

pub record RpcTransactionReward : Type 0 where
  pub pubkey : String
  pub lamports : ℤ
  pub post_balance : ℕ
  pub reward_type : String
  pub commission : Option ℤ
  pub vote_account : String

pub record RpcLoadedAddresses : Type 0 where
  pub writable : List String
  pub readonly : List String

pub record RpcTransactionMeta : Type 0 where
  pub rewards : List RpcTransactionReward
  pub pre_balances : List ℕ
  pub post_balances : List ℕ
  pub failure : List ℕ
  pub inner_instructions : List RpcInnerInstruction
  pub loaded_addresses : Option RpcLoadedAddresses

pub record RpcTransactionMessage : Type 0 where
  pub account_keys : List String
  pub instructions : List RpcMessageInstruction

pub record RpcTransactionResult : Type 0 where
  pub slot : ℕ
  pub block_time : Option ℤ
  pub meta : Option RpcTransactionMeta
  pub transaction : Option RpcTransactionMessage

pub record RpcInflationReward : Type 0 where
  pub epoch : ℕ
  pub effective_slot : ℕ
  pub amount : ℤ
  pub post_balance : ℕ
  pub commission : Option ℤ

pub record RpcVoteAccount : Type 0 where
  pub vote_pubkey : String
  pub node_pubkey : String

pub record RpcVoteAccountsBody : Type 0 where
  pub current : List RpcVoteAccount
  pub delinquent : List RpcVoteAccount

pub record RpcEpochInfo : Type 0 where
  pub epoch : ℕ
  pub absolute_slot : ℕ
  pub slot_index : ℕ
  pub slots_in_epoch : ℕ

pub record RpcEvent : Type 0 where
  pub signature : String
  pub slot : ℕ
  pub timestamp : List ℕ
  pub event_type : String
  pub program_id : String
  pub accounts : List String
  pub tip_distribution : Option TipDistributionEvent
  -- the `info` of the parsed event
  pub parsed : Option (List ℕ)

pub record RpcEventsResult : Type 0 where
  pub events : List RpcEvent
  pub pagination_token : String

-- What encoding/json reads of a value, and bytes.TrimSpace.
pub record JsonReader : Type 0 where
  pub trim : List ℕ → List ℕ
  pub string : List ℕ → Result String
  pub uint16 : List ℕ → Result ℕ

abbrev address_reference : Result String → Result RpcAccountReference
address_reference (ok address) = ok (record { index = none; address = address })
address_reference (err e) = err e

abbrev index_reference : Result ℕ → Result RpcAccountReference
index_reference (ok index) = ok (record { index = some index; address = "" })
index_reference (err e) = err e

-- UnmarshalJSON of an account reference: a text or a number; nothing leaves it as it was.
unfoldable pub unmarshal_account_reference :
    JsonReader → List ℕ → RpcAccountReference → Result RpcAccountReference
unmarshal_account_reference json payload old = elim (json.trim payload) [
  | [] ↦ ok old
  | c ∷ cs ↦
      if nat_eq c 34
      then address_reference (json.string (c ∷ cs))
      else index_reference (json.uint16 (c ∷ cs))
]

-- The reply of each method.
abbrev pub RpcGetBalanceResponse : Type 0
RpcGetBalanceResponse = RpcResponse (Option RpcBalanceResult)

abbrev pub RpcProgramAccountsResponse : Type 0
RpcProgramAccountsResponse = RpcResponse (List RpcProgramAccount)

abbrev pub RpcGetSignaturesResponse : Type 0
RpcGetSignaturesResponse = RpcResponse (List RpcSignatureInfo)

abbrev pub RpcGetTransactionResponse : Type 0
RpcGetTransactionResponse = RpcResponse (Option RpcTransactionResult)

abbrev pub RpcGetInflationRewardResponse : Type 0
RpcGetInflationRewardResponse = RpcResponse (List (Option RpcInflationReward))

abbrev pub RpcGetVoteAccountsResponse : Type 0
RpcGetVoteAccountsResponse = RpcResponse (Option RpcVoteAccountsBody)

abbrev pub RpcGetEpochInfoResponse : Type 0
RpcGetEpochInfoResponse = RpcResponse (Option RpcEpochInfo)

abbrev pub RpcGetBlockTimeResponse : Type 0
RpcGetBlockTimeResponse = RpcResponse (Option ℤ)

abbrev pub RpcGetEventsResponse : Type 0
RpcGetEventsResponse = RpcResponse (Option RpcEventsResult)

-- What the package encoding/json makes of requests and of reply bodies.
pub record Codec : Type 0 where
  pub encode : List RpcRequest → Result (List ℕ)
  pub balance : List ℕ → Result RpcGetBalanceResponse
  pub program_accounts : List ℕ → Result RpcProgramAccountsResponse
  pub signatures : List ℕ → Result RpcGetSignaturesResponse
  pub transaction : List ℕ → Result RpcGetTransactionResponse
  pub transactions : List ℕ → Result (List RpcGetTransactionResponse)
  pub inflation_reward : List ℕ → Result RpcGetInflationRewardResponse
  pub vote_accounts : List ℕ → Result RpcGetVoteAccountsResponse
  pub epoch_info : List ℕ → Result RpcGetEpochInfoResponse
  pub block_time : List ℕ → Result RpcGetBlockTimeResponse
  pub events : List ℕ → Result RpcGetEventsResponse
