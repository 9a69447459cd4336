-- ===== src/Solana/Tests.antt =====
-- solana_client.go: calls of the client over a network that throttles a request.
mod Replies
mod Epochs
mod Disk
mod Prices
use go_octopi.Base.{
  ℕ, zero, suc, ◌≡◌, refl, ◌<◌, ◌%◌, ◌-◌, Option, none, some, List, [], ◌∷◌, ◌++◌, String, All, In,
  inl, inr, arith, ◌⊎◌, if◌then◌else◌, nat_eq, String-Eq, ◌↔◌, ◌≢◌,
}
use go_octopi.Base.Fault.{Error, plain, Result, ok, err}
use go_octopi.Base.Int.{pos}
use go_octopi.Base.Text.{bytes_eq, digits, codes, trim_space}
use go_octopi.Base.Word.{add64, u64_mod}
use go_octopi.Solana.Batch.{batch_signatures, unique_signatures, collect_replies, id_to_signature}
use go_octopi.Solana.Batch.Answers.{Answers, Reply, collect_replies-Answers}
use go_octopi.Solana.Batch.Cover.{
  joined, Batch, Distinct, batch_signatures-joined, unique_signatures-Distinct,
}
use go_octopi.Solana.Calls.{call, get_balance, balance_params}
use go_octopi.Solana.Replies.{read_balance}
use go_octopi.Solana.Calls.Retries.{
  Settles, do_rpc_request-Settles, AlwaysThrottles, do_rpc_request-AlwaysThrottles,
}
use go_octopi.Solana.Calls.Status.{Answered, get_balance-Read}
use go_octopi.Solana.Convert.{message_instructions, resolve_accounts, convert_transaction_result}
use go_octopi.Solana.Number.{parse_uint_string, json_number_to_uint64}
use go_octopi.Solana.Number.Decimal.{parse_uint_string-digits, json_number_to_uint64-digits}
use go_octopi.Solana.Replies.{stake_accounts_of}
use go_octopi.Solana.Replies.Stakes.{Reports, stake_accounts_of-Reports, stake_accounts_of_complete}
use go_octopi.Solana.Rpc.{
  post, post_requests, after_send, body_of, Transport, HttpResponse, State, new_rpc_request_id,
  retry_delay, retry_after_delay, do_rpc_request,
}
use go_octopi.Solana.Types.{StakeAccount}
use go_octopi.Solana.Wire.{
  Codec, RpcRequest, RpcResponse, RpcBalanceResult, RpcProgramAccount, RpcStakeAccountParsed,
  RpcAccountReference, RpcTransactionResult, RpcTransactionMessage,
}

-- A server that throttles until its world is zero; a wait brings the world down by one.
abbrev throttled : ℕ → HttpResponse
throttled zero = record { status = 200; retry_after = ""; body = 42 ∷ [] }
throttled (suc n) = record { status = 429; retry_after = "1"; body = [] }

abbrev net : Transport
net = record {
  World = ℕ;
  unix_nano = λ w. 7;
  send = λ payload w. (ok (throttled w), w);
  wait = λ d w. (none, w - 1);
  parse_seconds = λ text. some 1000000000;
  time_until = λ text w. none;
}

-- A server that throttles always.
abbrev busy : Transport
busy = record {
  World = ℕ;
  unix_nano = λ w. 7;
  send = λ payload w. (ok (throttled 1), w);
  wait = λ d w. (none, w);
  parse_seconds = λ text. some 1000000000;
  time_until = λ text w. none;
}

abbrev refused : {A : Type 0} → List ℕ → Result A
refused body = err (plain "decode")

-- Reads the first byte of a body as a balance.
abbrev read_byte : List ℕ → Result (RpcResponse (Option RpcBalanceResult))
read_byte [] = refused []
read_byte (b ∷ body) = ok (record { id = []; result = some (record { value = b }); failure = none })

abbrev codec : Codec
codec = record {
  encode = λ requests. ok [];
  balance = read_byte;
  program_accounts = refused;
  signatures = refused;
  transaction = refused;
  transactions = refused;
  inflation_reward = refused;
  vote_accounts = refused;
  epoch_info = refused;
  block_time = refused;
  events = refused;
}

-- Two retries, then the reply.
settled : Settles net [] 2 2 (ok (throttled 0))
unfolding retry_delay retry_after_delay trim_space
settled = Settles.throttles {w = 2} (throttled 2) 1000000000 refl refl refl (
    Settles.throttles {w = 1} (throttled 1) 1000000000 refl refl refl
      (Settles.answers {w = 0} (throttled 0) refl refl))

do_rpc_request-Settles_example :
    (w' : ℕ) × (do_rpc_request net 3 [] 2 ≡ some (ok (throttled 0), w'))
do_rpc_request-Settles_example = do_rpc_request-Settles net [] 3 settled (omega arith)

busy-AlwaysThrottles : AlwaysThrottles busy []
unfolding retry_delay retry_after_delay trim_space
busy-AlwaysThrottles = record {
  response = λ w. throttled 1;
  delay = λ w. 1000000000;
  replied = λ w. refl;
  again = λ w. refl;
  waited = λ w. refl;
}

do_rpc_request-AlwaysThrottles_example : do_rpc_request busy 100 [] 0 ≡ none
do_rpc_request-AlwaysThrottles_example =
    do_rpc_request-AlwaysThrottles busy [] busy-AlwaysThrottles 100 0

abbrev start : State net
start = record { counter = 0; world = 1 }

abbrev after : State net
after = record { counter = 1; world = 0 }

balance_is_read : get_balance net codec 5 "owner" start ≡ some (ok 42, after)
unfolding get_balance call post post_requests after_send body_of new_rpc_request_id do_rpc_request
    retry_delay retry_after_delay trim_space read_balance
balance_is_read = refl

get_balance-Read_example :
    (resp : HttpResponse) × (reply : RpcResponse (Option RpcBalanceResult))
    × (balance : RpcBalanceResult) × Answered net codec 5
        (record {
          id = (new_rpc_request_id net start).0;
          method = "getBalance";
          params = balance_params "owner";
        }
          ∷ [])
        (new_rpc_request_id net start).1.world
        resp
    × (resp.status < 300)
    × (codec.balance resp.body ≡ ok reply)
    × (reply.failure ≡ none)
    × (reply.result ≡ some balance)
    × (42 ≡ balance.value)
get_balance-Read_example = get_balance-Read net codec 5 "owner" start after 42 balance_is_read
