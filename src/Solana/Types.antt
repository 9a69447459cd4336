-- ===== src/Solana/Types.antt =====
-- solana_client.go: the types of the client's interface. An int64 is a ℤ, a pointer an `Option`, and
-- raw JSON the list of its bytes.
use go_octopi.Base.{ℕ, List, String, Option}
use go_octopi.Base.Int.{ℤ}
use go_octopi.Base.Time.{Time}

pub record StakeAccount : Type 0 where
  pub address : String
  pub delegated_lamports : ℕ
  pub state : String
  pub vote_account : String
  pub withdraw_authority : String

pub record SignatureInfo : Type 0 where
  pub signature : String
  pub slot : ℕ
  pub block_time : Option ℤ

pub record TransactionReward : Type 0 where
  pub pubkey : String
  pub lamports : ℤ
  pub post_balance : ℕ
  pub reward_type : String
  pub commission : Option ℤ
  pub vote_account : String

pub record TransactionInstruction : Type 0 where
  pub program_id : String
  pub accounts : List String
  pub payload : String
  pub program : String
  pub stack_height : Option ℤ

pub record InnerInstruction : Type 0 where
  pub index : ℤ
  pub instructions : List TransactionInstruction

pub record TransactionMeta : Type 0 where
  pub rewards : List TransactionReward
  pub pre_balances : List ℕ
  pub post_balances : List ℕ
  pub failure : List ℕ
  pub inner_instructions : List InnerInstruction

pub record TransactionDetail : Type 0 where
  pub slot : ℕ
  pub block_time : Option ℤ
  pub meta : TransactionMeta
  pub account_keys : List String
  pub instructions : List TransactionInstruction

pub record TipDistributionEvent : Type 0 where
  pub validator : String
  pub epoch : ℕ
  pub recipient : String
  pub amount : ℕ

pub record Event : Type 0 where
  pub signature : String
  pub slot : ℕ
  pub timestamp : Time
  pub event_type : String
  pub program_id : String
  pub accounts : List String
  pub tip_distribution : Option TipDistributionEvent

pub record EventsPage : Type 0 where
  pub events : List Event
  pub pagination_token : String

pub record InflationReward : Type 0 where
  pub epoch : ℕ
  pub effective_slot : ℕ
  pub amount : ℤ
  pub post_balance : ℕ
  pub commission : Option ℤ

pub record VoteAccount : Type 0 where
  pub vote_pubkey : String
  pub node_pubkey : String

pub record EpochInfo : Type 0 where
  pub epoch : ℕ
  pub absolute_slot : ℕ
  pub slot_index : ℕ
  pub slots_in_epoch : ℕ

pub record EpochBoundary : Type 0 where
  pub epoch : ℕ
  pub end_slot : ℕ
  pub end_time : Time
