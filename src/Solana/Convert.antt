-- ===== src/Solana/Convert.antt =====
-- solana_client.go: `convertTransactionResult` and the resolution of account indices.
pub mod Resolved
use go_octopi.Base.{
  ℕ, Bool, true, false, Option, none, some, List, [], ◌∷◌, ◌++◌, String, map, length, get_elem?,
  nat_eq, leb, ◌&&◌, ◌||◌, if◌then◌else◌, ◌==◌, String-Eq,
}
use go_octopi.Base.Int.{int_of_word}
use go_octopi.Base.Text.{codes, bytes_eq}
use go_octopi.Solana.Types.{
  TransactionReward, TransactionInstruction, InnerInstruction, TransactionMeta, TransactionDetail,
}
use go_octopi.Solana.Wire.{
  RpcAccountReference, RpcMessageInstruction, RpcInstruction, RpcInnerInstruction,
  RpcTransactionReward, RpcLoadedAddresses, RpcTransactionMeta, RpcTransactionMessage,
  RpcTransactionResult,
}

abbrev pub text_or_empty : Option String → String
text_or_empty none = ""
text_or_empty (some s) = s

-- accountKeys[*index], for an index that is there and in range.
abbrev pub key_at : Option ℕ → List String → Option String
key_at none keys = none
key_at (some i) keys = get_elem? keys i

-- resolveProgramID
unfoldable pub resolve_program_id : String → Option ℕ → List String → String
resolve_program_id explicit index keys =
    if explicit == "" then text_or_empty (key_at index keys) else explicit

abbrev pub cons_key : Option String → List String → List String
cons_key none keys = keys
cons_key (some k) keys = k ∷ keys

-- resolveAccounts: an index out of range is passed over.
unfoldable pub resolve_accounts : List RpcAccountReference → List String → List String
resolve_accounts [] keys = []
resolve_accounts (ref ∷ refs) keys =
    let rest = resolve_accounts refs keys in
    if ref.address == "" then cons_key (key_at ref.index keys) rest else ref.address ∷ rest

unfoldable pub convert_message_instruction :
    List String → RpcMessageInstruction → TransactionInstruction
convert_message_instruction keys inst = record {
  program_id = resolve_program_id inst.program_id inst.program_id_index keys;
  accounts = resolve_accounts inst.accounts keys;
  payload = inst.payload;
  program = "";
  stack_height = none;
}

unfoldable pub convert_instruction : List String → RpcInstruction → TransactionInstruction
convert_instruction keys inst = record {
  program_id = resolve_program_id inst.program_id inst.program_id_index keys;
  accounts = resolve_accounts inst.accounts keys;
  payload = inst.payload;
  program = inst.program;
  stack_height = inst.stack_height;
}

unfoldable pub convert_inner : List String → RpcInnerInstruction → InnerInstruction
convert_inner keys inner = record {
  index = int_of_word inner.index;
  instructions = map (convert_instruction keys) inner.instructions;
}

unfoldable pub convert_reward : RpcTransactionReward → TransactionReward
convert_reward r = record {
  pubkey = r.pubkey;
  lamports = r.lamports;
  post_balance = r.post_balance;
  reward_type = r.reward_type;
  commission = r.commission;
  vote_account = r.vote_account;
}

-- bytes.TrimSpace. The text of a JSON value begins and ends with ASCII bytes.
abbrev is_space : ℕ → Bool
is_space b = (leb 9 b && leb b 13) || nat_eq b 32

unfoldable pub skip_spaces : List ℕ → List ℕ
skip_spaces [] = []
skip_spaces (b ∷ bs) = let rest = skip_spaces bs in if is_space b then rest else b ∷ bs

unfoldable pub drop_spaces : List ℕ → List ℕ
drop_spaces [] = []
drop_spaces (b ∷ bs) =
    let rest = drop_spaces bs in
    if nat_eq (length rest) 0 then (if is_space b then [] else b ∷ []) else b ∷ rest

unfoldable pub trim_bytes : List ℕ → List ℕ
trim_bytes bs = drop_spaces (skip_spaces bs)

-- The error of a transaction: `null` counts as none.
unfoldable pub convert_err : List ℕ → List ℕ
convert_err raw = if bytes_eq (trim_bytes raw) (codes "null") then [] else trim_bytes raw

abbrev pub no_meta : TransactionMeta
no_meta = record {
  rewards = [];
  pre_balances = [];
  post_balances = [];
  failure = [];
  inner_instructions = [];
}

unfoldable pub convert_meta : List String → Option RpcTransactionMeta → TransactionMeta
convert_meta keys none = no_meta
convert_meta keys (some m) = record {
  rewards = map convert_reward m.rewards;
  pre_balances = m.pre_balances;
  post_balances = m.post_balances;
  failure = convert_err m.failure;
  inner_instructions = map (convert_inner keys) m.inner_instructions;
}

abbrev pub loaded_keys : Option RpcLoadedAddresses → List String
loaded_keys none = []
loaded_keys (some l) = l.writable ++ l.readonly

abbrev pub meta_keys : Option RpcTransactionMeta → List String
meta_keys none = []
meta_keys (some m) = loaded_keys m.loaded_addresses

abbrev pub message_keys : Option RpcTransactionMessage → List String
message_keys none = []
message_keys (some m) = m.account_keys

abbrev pub message_instructions : Option RpcTransactionMessage → List RpcMessageInstruction
message_instructions none = []
message_instructions (some m) = m.instructions

-- The keys that an index of the transaction counts through.
unfoldable pub account_keys_of : RpcTransactionResult → List String
account_keys_of r = message_keys r.transaction ++ meta_keys r.meta

-- convertTransactionResult, for a result that is there.
unfoldable pub convert_transaction_result : RpcTransactionResult → TransactionDetail
convert_transaction_result r =
    let keys = account_keys_of r in
    record {
      slot = r.slot;
      block_time = r.block_time;
      meta = convert_meta keys r.meta;
      account_keys = keys;
      instructions = map (convert_message_instruction keys) (message_instructions r.transaction);
    }
