-- ===== src/Solana/Tests/Replies.antt =====
-- solana_client.go: conversions of small replies.
use go_octopi.Base.{
  ℕ, ◌≡◌, refl, ◌%◌, none, some, List, [], ◌∷◌, String, All, String-Eq, insert, lookup,
}
use go_octopi.Base.Fault.{ok}
use go_octopi.Base.Int.{pos}
use go_octopi.Base.Text.{bytes_eq, digits}
use go_octopi.Base.Word.{u64_mod}
use go_octopi.Solana.Batch.{
  note_reply, unique_from, is_seen, batch_signatures, unique_signatures, collect_replies,
  id_to_signature,
}
use go_octopi.Solana.Batch.Answers.{Answers, Reply, collect_replies-Answers}
use go_octopi.Solana.Batch.Cover.{joined, Batch, batch_signatures-joined}
use go_octopi.Solana.Convert.{message_instructions, resolve_accounts, convert_transaction_result}
use go_octopi.Solana.Convert.Resolved.{
  Keys, All2, Resolves, ResolvesGroup, inner_instructions_of, convert_transaction_result-Resolves,
}
use go_octopi.Solana.Number.{parse_uint_string, json_number_to_uint64}
use go_octopi.Solana.Number.Decimal.{parse_uint_string-digits, json_number_to_uint64-digits}
use go_octopi.Solana.Replies.{stake_accounts_of}
use go_octopi.Solana.Replies.Stakes.{Reports, stake_accounts_of-Reports}
use go_octopi.Solana.Types.{TransactionDetail}
use go_octopi.Solana.Wire.{
  RpcProgramAccount, RpcStakeAccountParsed, RpcAccountReference, RpcTransactionResult,
}

abbrev parsed : RpcStakeAccountParsed
parsed = record {
  account_type = "delegated";
  staker = "other";
  withdrawer = "owner";
  stake = digits 7;
  voter = "vote";
}

abbrev entries : List RpcProgramAccount
entries =
    record { pubkey = "empty"; parsed = none }
    ∷ record { pubkey = "stake"; parsed = some parsed }
    ∷ []

stake_accounts_of-Reports_example :
    All (Reports "owner" entries) (stake_accounts_of "owner" entries)
stake_accounts_of-Reports_example = stake_accounts_of-Reports "owner" entries

stake_is_read : json_number_to_uint64 (digits 7) ≡ ok 7
stake_is_read = json_number_to_uint64-digits 7

-- 2 ^ 64 + 5 reads as 5.
parse_uint_string-digits_example :
    parse_uint_string (digits 18446744073709551621) ≡ ok (18446744073709551621 % u64_mod)
parse_uint_string-digits_example = parse_uint_string-digits 18446744073709551621

abbrev refs : List RpcAccountReference
refs =
    record { index = some 1; address = "" }
    ∷ record { index = none; address = "sysvar" }
    ∷ record { index = some 9; address = "" }
    ∷ []

abbrev keys : List String
keys = "payer" ∷ "stake" ∷ []

out_of_range : resolve_accounts refs keys ≡ "stake" ∷ "sysvar" ∷ []
unfolding resolve_accounts
out_of_range = refl

abbrev transaction : RpcTransactionResult
transaction = record {
  slot = 15;
  block_time = none;
  meta = some (record {
    rewards = [];
    pre_balances = [];
    post_balances = [];
    failure = [];
    inner_instructions =
        record {
          index = 0;
          instructions =
              record {
                program_id_index = some 3;
                program_id = "";
                accounts = refs;
                payload = "";
                program = "";
                stack_height = none;
              }
              ∷ [];
        }
        ∷ [];
    loaded_addresses = some (record { writable = "vote" ∷ []; readonly = "program" ∷ [] });
  });
  transaction = some (record {
    account_keys = keys;
    instructions =
        record { program_id_index = some 0; program_id = ""; accounts = refs; payload = "" } ∷ [];
  });
}

convert_transaction_result-Resolves_example :
    Keys transaction (convert_transaction_result transaction).account_keys
    × All2
        (Resolves (convert_transaction_result transaction).account_keys)
        (message_instructions transaction.transaction)
        (convert_transaction_result transaction).instructions
    × All2
        (ResolvesGroup (convert_transaction_result transaction).account_keys)
        (inner_instructions_of transaction.meta)
        (convert_transaction_result transaction).meta.inner_instructions
convert_transaction_result-Resolves_example = convert_transaction_result-Resolves transaction

batch_signatures-joined_example :
    (bs : List (List String)) × (batch_signatures ("a" ∷ "b" ∷ "c" ∷ []) (pos 2) ≡ some bs)
    × (joined bs ≡ "a" ∷ "b" ∷ "c" ∷ [])
    × All (Batch 2) bs
batch_signatures-joined_example = batch_signatures-joined ("a" ∷ "b" ∷ "c" ∷ []) 1

repeated : unique_signatures ("a" ∷ "" ∷ "a" ∷ "b" ∷ []) ≡ "a" ∷ "b" ∷ []
unfolding unique_signatures unique_from is_seen
repeated = refl

-- The second request is answered first, the first one not at all.
abbrev lookups : List (List ℕ × String)
lookups = (1 ∷ [], "a") ∷ (2 ∷ [], "b") ∷ []

abbrev replies : List Reply
replies =
    record { id = 2 ∷ []; result = some transaction; failure = none }
    ∷ record { id = 1 ∷ []; result = none; failure = none }
    ∷ []

abbrev answers : List (String × TransactionDetail)
answers = ("b", convert_transaction_result transaction) ∷ []

answered : collect_replies (id_to_signature lookups []) replies [] ≡ ok answers
unfolding collect_replies id_to_signature note_reply insert lookup bytes_eq
answered = refl

collect_replies-Answers_example :
    All (Answers lookups replies) answers × All (λ (item : Reply). item.failure ≡ none) replies
collect_replies-Answers_example = collect_replies-Answers lookups replies answers answered
