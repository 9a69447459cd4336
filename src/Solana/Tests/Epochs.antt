-- ===== src/Solana/Tests/Epochs.antt =====
-- solana_client.go: a refresh of the epoch cache.
use go_octopi.Base.{
  ℕ, ◌≡◌, ◌≤◌, ◌+◌, ◌*◌, refl, ◌↔◌, ◌⊎◌, none, some, List, [], ◌∷◌, In, keep, inl, inr, arith,
}
use go_octopi.Base.Fault.{Error, plain, wrap, Result, ok, err}
use go_octopi.Base.Int.{pos}
use go_octopi.Base.Time.{Time, unix, add_duration, second}
use go_octopi.Solana.Calls.{call, get_epoch_info, get_block_time}
use go_octopi.Solana.Epochs.{
  EpochCache, check_info, estimate_epoch_expiry, block_time_at, walk, refresh_locked, needs_refresh,
  in_window, get_boundaries,
}
use go_octopi.Solana.Calls.Retries.{answers}
use go_octopi.Solana.Calls.Returns.{Patient, Answered}
use go_octopi.Solana.Epochs.Returns.{get_boundaries-Answered}
use go_octopi.Solana.Epochs.Window.{Refreshed, refresh_locked-Refreshed, get_boundaries-In}
use go_octopi.Solana.Replies.{read_epoch_info, read_block_time}
use go_octopi.Solana.Rpc.{
  Transport, State, new_rpc_request_id, retry_delay, do_rpc_request, post, post_requests,
  after_send, body_of,
}
use go_octopi.Solana.Types.{EpochBoundary, EpochInfo}
use go_octopi.Solana.Wire.{Codec}
use go_octopi.Tips.Intervals.{build_epoch_intervals, epoch_for_slot}
use go_octopi.Tips.Intervals.Schedule.{epoch_for_slot-refresh_locked}
use mathlib.Core.List.Perm

-- A server with an answer to each of its first requests; its world is the number of requests.
abbrev pub net : Transport
net = record {
  World = ℕ;
  unix_nano = λ w. 0;
  send = λ payload w. (ok (record { status = 200; retry_after = ""; body = [] }), w + 1);
  wait = λ d w. (none, w);
  parse_seconds = λ text. none;
  time_until = λ text w. none;
}

abbrev offline : Transport
offline = record {
  World = ℕ;
  unix_nano = λ w. 0;
  send = λ payload w. (err (plain "offline"), w);
  wait = λ d w. (none, w);
  parse_seconds = λ text. none;
  time_until = λ text w. none;
}

abbrev refused : {A : Type 0} → List ℕ → Result A
refused body = err (plain "decode")

abbrev current : EpochInfo
current = record { epoch = 3; absolute_slot = 325; slot_index = 25; slots_in_epoch = 100 }

-- In slot 325 of epochs of 100 slots; every block is of the second 5.
abbrev pub codec : Codec
codec = record {
  encode = λ requests. ok [];
  balance = refused;
  program_accounts = refused;
  signatures = refused;
  transaction = refused;
  transactions = refused;
  inflation_reward = refused;
  vote_accounts = refused;
  epoch_info = λ body. ok (record {
    id = [];
    result =
        some (record { epoch = 3; absolute_slot = 325; slot_index = 25; slots_in_epoch = 100 });
    failure = none;
  });
  block_time = λ body. ok (record { id = []; result = some (pos 5); failure = none });
  events = refused;
}

abbrev empty : EpochCache
empty = record { boundaries = []; expires_at = 0; covered_from = 0 }

abbrev pub window : Time
window = (5 + 62135596800) * second

abbrev pub start : State net
start = record { counter = 0; world = 0 }

abbrev pub after : State net
after = record { counter = 4; world = 4 }

abbrev pub found : List EpochBoundary
found =
    record { epoch = 2; end_slot = 299; end_time = window }
    ∷ record { epoch = 1; end_slot = 199; end_time = window }
    ∷ record { epoch = 0; end_slot = 99; end_time = window }
    ∷ []

-- The epoch expires 75 slots of 400 milliseconds later.
abbrev pub filled : EpochCache
filled = record {
  boundaries = found;
  expires_at = 62135596800 * second + 30 * second;
  covered_from = window;
}

pub refreshes : refresh_locked net codec 1 window start ≡ some (ok filled, after)
unfolding refresh_locked check_info walk block_time_at estimate_epoch_expiry get_epoch_info
    get_block_time call post post_requests after_send body_of new_rpc_request_id do_rpc_request
    retry_delay read_epoch_info read_block_time unix add_duration
refreshes = refl

refresh_locked-Refreshed_example : Refreshed net codec 1 window start filled
refresh_locked-Refreshed_example =
    refresh_locked-Refreshed net codec 1 window start after filled refreshes

informed : get_epoch_info net codec 1 start ≡ some (ok current, record { counter = 1; world = 1 })
unfolding get_epoch_info call post post_requests after_send body_of new_rpc_request_id
    do_rpc_request retry_delay read_epoch_info
informed = refl

epoch_for_slot-refresh_locked_example :
    epoch_for_slot 150 (build_epoch_intervals (keep (in_window window) found)) ≡ some 1
unfolding keep
epoch_for_slot-refresh_locked_example =
    epoch_for_slot-refresh_locked net codec 1 current window window start
      (record { counter = 1; world = 1 }) after filled
      (record { epoch = 1; end_slot = 199; end_time = window }) 150
      (build_epoch_intervals (keep (in_window window) found)) informed (omega arith) refreshes
      (Perm.refl (build_epoch_intervals (keep (in_window window) found))) (inr (inl refl))
      (omega arith) (omega arith)

reads : get_boundaries net codec 1 window empty start ≡ some (ok found, filled, after)
unfolding get_boundaries needs_refresh keep
reads = rw refreshes refl

get_boundaries-In_example :
    ((b : EpochBoundary) → In b found ↔ (In b found × (window ≤ b.end_time)))
    × (((filled ≡ empty) × (after ≡ start)) ⊎ Refreshed net codec 1 window start filled)
get_boundaries-In_example =
    get_boundaries-In net codec 1 window empty filled start after found reads

abbrev stranded : State offline
stranded = record { counter = 0; world = 0 }

abbrev no_info : Error
no_info = wrap "epoch info" (wrap "rpc request" (plain "offline"))

fails :
    get_boundaries offline codec 1 window empty stranded
    ≡ some (err no_info, empty, record { counter = 1; world = 0 })
unfolding get_boundaries needs_refresh refresh_locked get_epoch_info call post post_requests
    after_send new_rpc_request_id do_rpc_request
fails = refl

-- No reply asks for a retry.
net-Patient : Patient net 1
unfolding retry_delay
net-Patient payload w = (
  0,
  ok (record { status = 200; retry_after = ""; body = [] }),
  answers (record { status = 200; retry_after = ""; body = [] }) refl refl,
  omega arith,
)

get_boundaries-Answered_example : Answered (get_boundaries net codec 1 window empty start)
get_boundaries-Answered_example = get_boundaries-Answered net codec 1 net-Patient window empty start
