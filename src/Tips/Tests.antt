-- ===== src/Tips/Tests.antt =====
-- jito_tips.go: a collection of tips over a network that always gives one page.
use mathlib.Core.List.{Perm, Permᴰ}
use go_octopi.Base.{
  ℕ, ◌≡◌, refl, ◌≤◌, ◌*◌, ◌+◌, none, some, List, [], ◌∷◌, Dict, length, arith, map, String-Eq,
}
use go_octopi.Base.Fault.{ok}
use go_octopi.Base.Int.{pos}
use go_octopi.Base.Sort.{sort, insert_sorted}
use go_octopi.Base.Text.{digits}
use go_octopi.Lru
use go_octopi.Lru.Invariant.{new-IsValid}
use go_octopi.Rewards.{Formats}
use go_octopi.Solana.Types.{StakeAccount, TransactionDetail, EpochBoundary}
use go_octopi.Tips.Client.{Client, fetch_transactions}
use go_octopi.Tips.Collect.{
  window_of, add_tips, collect_pages, collect_stake_account_tips, collect_accounts,
  collect_jito_tips_window, collect_chunks, collect_jito_tips,
}
use go_octopi.Tips.Collect.Chunks.{collect_chunks-enough}
use go_octopi.Tips.Collect.Memory.{Fits, collect_jito_tips-Fits}
use go_octopi.Tips.Collect.Requests.{CountsPages, collect_jito_tips-pages}
use go_octopi.Tips.Intervals.{
  SlotInterval, by_epoch, build_epoch_intervals, epoch_for_slot, min_allowed_slot,
}
use go_octopi.Tips.Intervals.Lookup.{owner}
use go_octopi.Tips.Intervals.Visits.{epoch_for_slot-owner}
use go_octopi.Tips.Select.{
  Processed, select_new, is_seen, mark_signature_processed, build_stake_account_index,
}
use go_octopi.Tips.Transaction.{TrackedStakeAccount, Window, tip_of, compute_tip_lamports}

abbrev formats : Formats
formats = record {
  Float64 = ℕ;
  in_sol = λ n. n;
  format_number = digits;
  format_time = digits;
  format_day = digits;
  format_fiat_usd = digits;
  format_percent = digits;
}

-- The first account pays 5 lamports to the second.
abbrev tip : TransactionDetail
tip = record {
  slot = 15;
  block_time = some (pos 1700000000);
  meta = record {
    rewards = [];
    pre_balances = 100 ∷ 20 ∷ [];
    post_balances = 95 ∷ 25 ∷ [];
    failure = [];
    inner_instructions = [];
  };
  account_keys = "payer" ∷ "stake" ∷ [];
  instructions =
      record {
        program_id = "RouterBmuRBkPUbgEDMtdvTZ75GBdSREZR5uGUxxxpb";
        accounts = "payer" ∷ "stake" ∷ [];
        payload = "";
        program = "";
        stack_height = none;
      }
      ∷ [];
}

-- Its world counts the pages of signatures that were asked for.
abbrev client : Client
client = record {
  World = ℕ;
  cancelled = λ w. none;
  sleep = λ d w. w;
  get_signatures_for_address = λ address limit before w.
      (ok (record { signature = "sig"; slot = 15; block_time = none } ∷ []), w + 1);
  get_transactions = λ sigs w. (ok (("sig", some tip) ∷ []), w);
  get_transaction = λ sig w. (ok none, w);
}

abbrev counts : CountsPages client (λ w. w)
counts = record {
  asked = λ address limit before w. refl;
  batch_keeps = λ sigs w. refl;
  single_keeps = λ sig w. refl;
  sleep_keeps = λ d w. refl;
}

abbrev accounts : List StakeAccount
accounts =
    record {
      address = "stake";
      delegated_lamports = 7;
      state = "delegated";
      vote_account = "vote";
      withdraw_authority = "owner";
    }
    ∷ []

-- Newest first, as the client gives them.
abbrev boundaries : List EpochBoundary
boundaries =
    record { epoch = 2; end_slot = 19; end_time = 0 }
    ∷ record { epoch = 1; end_slot = 9; end_time = 0 }
    ∷ []

abbrev targets : List ℕ
targets = 2 ∷ 1 ∷ []

abbrev cache : Processed
cache = Lru.new (pos 256)

cache-Fits : Fits cache
unfolding Lru.new
cache-Fits = record { valid = new-IsValid (pos 256); capacity = refl }

abbrev window : Window
window = window_of formats client [] targets boundaries

abbrev account : TrackedStakeAccount
account = record { address = "stake"; validator = "vote" }

intervals :
    build_epoch_intervals boundaries
    ≡ (1, record { start = 0; end = 9 }) ∷ (2, record { start = 10; end = 19 }) ∷ []
unfolding build_epoch_intervals sort insert_sorted
intervals = refl

gained : compute_tip_lamports tip "stake" ≡ 5
unfolding compute_tip_lamports
gained = refl

collect_jito_tips-pages_example :
    (collect_jito_tips formats client accounts [] targets boundaries cache 0).world
    ≤ 0 + 40 * length (build_stake_account_index accounts)
collect_jito_tips-pages_example =
    collect_jito_tips-pages formats client (λ w. w) counts accounts [] targets boundaries cache 0

collect_jito_tips-Fits_example :
    Fits (collect_jito_tips formats client accounts [] targets boundaries cache 0).processed
collect_jito_tips-Fits_example =
    collect_jito_tips-Fits formats client accounts [] targets boundaries cache 0 cache-Fits

-- The map, visited from the last epoch to the first.
abbrev visited : Dict ℕ SlotInterval
visited = (2, record { start = 10; end = 19 }) ∷ (1, record { start = 0; end = 9 }) ∷ []

visited-Perm : Perm (build_epoch_intervals boundaries) visited
unfolding build_epoch_intervals sort
visited-Perm = ∣ Permᴰ.swap refl refl ∣₁

epoch_for_slot-owner_example : epoch_for_slot 15 visited ≡ owner 15 (sort by_epoch boundaries)
unfolding sort
epoch_for_slot-owner_example =
    epoch_for_slot-owner 15 boundaries visited (omega arith, omega arith, tt)
      (omega arith, (omega arith, tt)) visited-Perm

-- One page is asked for, and one tip is found.
one_tip :
    map
      (λ r. r.amount_sol)
      (collect_jito_tips formats client accounts [] targets boundaries cache 0).rows
    ≡ (b'5' ∷ []) ∷ []
unfolding collect_jito_tips collect_chunks collect_jito_tips_window collect_accounts
    collect_stake_account_tips collect_pages select_new fetch_transactions add_tips tip_of
    mark_signature_processed build_stake_account_index build_epoch_intervals min_allowed_slot sort
    Lru.get Lru.new Lru.add Lru.push Lru.evict is_seen
one_tip = refl

collect_chunks-enough_example :
    collect_chunks formats client accounts [] boundaries 2 targets [] cache 0
    ≡ collect_chunks formats client accounts [] boundaries 3 targets [] cache 0
collect_chunks-enough_example =
    collect_chunks-enough formats client accounts [] boundaries 2 targets [] cache 0 (omega arith)
      (omega arith)
