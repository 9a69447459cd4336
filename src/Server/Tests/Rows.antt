-- ===== src/Server/Tests/Rows.antt =====
-- server.go: the rows of one stake account over a network that pays every epoch two SOL.
use go_octopi.Base.{
  ℕ, String, ◌≡◌, refl, ◌+◌, ◌*◌, none, some, Option, List, [], ◌∷◌, All, Dict, insert, lookup, map,
  keep, String-Eq, ℕ-Eq, arith,
}
use go_octopi.Base.Fault.{Result, ok, err, plain}
use go_octopi.Base.Int.{pos}
use go_octopi.Base.Sort.{sort, insert_sorted}
use go_octopi.Base.Text.{trim_space}
use go_octopi.Base.Time.{Time, day}
use go_octopi.Lru
use go_octopi.Tips.Collect.{
  collect_jito_tips, collect_chunks, collect_jito_tips_window, collect_accounts,
  collect_stake_account_tips, collect_pages,
}
use go_octopi.Tips.Intervals.{build_epoch_intervals}
use go_octopi.Tips.Select.{Processed, build_stake_account_index, is_seen}
use go_octopi.Server.Network.{Network}
use go_octopi.Server.Recent.{
  Row, reward_row, rows_of, inflation_rows, decorate_reward_validators, arrange, collect_epochs,
  collect_recent_rewards, epoch_dates_of, newer_epoch, is_relevant, validator_id, to_sol,
}
use go_octopi.Server.Recent.Order.{Shown, collect_recent_rewards-Shown}
use go_octopi.Server.Recent.Paid.{Paid, inflation_rows-Paid, inflation_rows-returns}
use go_octopi.Server.Tests.Scaled.{scaled, formats}
use go_octopi.Server.Weeks.{week_floor, reward_window_start}
use go_octopi.Solana.Types.{StakeAccount, InflationReward, EpochBoundary}
use go_octopi.Tips.Client.{Client}

-- No signatures at all.
abbrev pub quiet : Client
quiet = record {
  World = ℕ;
  cancelled = λ w. none;
  sleep = λ d w. w;
  get_signatures_for_address = λ address limit before w. (ok [], w);
  get_transactions = λ sigs w. (ok [], w);
  get_transaction = λ sig w. (ok none, w);
}

abbrev pub reward : ℕ → InflationReward
reward epoch = record {
  epoch = epoch;
  effective_slot = 20;
  amount = pos 2000000000;
  post_balance = 0;
  commission = none;
}

-- The first address has the reward.
abbrev pub pay : ℕ → List String → List (Option InflationReward)
pay epoch [] = []
pay epoch (a ∷ rest) = some (reward epoch) ∷ []

abbrev pub account : StakeAccount
account = record {
  address = "stake";
  delegated_lamports = 7;
  state = "active";
  vote_account = "vote";
  withdraw_authority = "wallet";
}

abbrev pub accounts : List StakeAccount
accounts = account ∷ []

abbrev pub thursday : Time
thursday = 739098 * day

abbrev pub boundaries : List EpochBoundary
boundaries = record { epoch = 8; end_slot = 20; end_time = thursday } ∷ []

abbrev pub network : Network ℕ
network = record {
  tips = quiet;
  get_balance = λ a w. (ok 5, w);
  list_stake_accounts = λ a w. (ok accounts, w);
  get_inflation_reward = λ asked epoch w. (ok (pay epoch asked), w + 1);
  get_epoch_boundaries = λ t w. (ok boundaries, w);
  get_current_epoch_end = λ w. (ok 60, w);
  get_epoch_info = λ w. (err (plain "no info"), w);
  get_sol_price = λ w. (err (plain "no price"), w);
  lookup_validator_name = λ id w. ("Octopus", w);
  record_validator_xirr = λ id rate w. w;
}

abbrev pub cache : Processed
cache = Lru.new (pos 256)

abbrev pub dates : Dict ℕ Time
dates = (8, thursday) ∷ []

abbrev pub row : Row formats scaled network
row = reward_row formats scaled network dates account (reward 8)

paid_rows :
    inflation_rows formats scaled network dates accounts (8 ∷ []) [] 0 ≡ some (ok (row ∷ []), 1)
unfolding inflation_rows rows_of
paid_rows = refl

inflation_rows-Paid_example : All (Paid formats scaled network dates accounts (8 ∷ [])) (row ∷ [])
inflation_rows-Paid_example =
    inflation_rows-Paid formats scaled network dates accounts (8 ∷ []) (row ∷ []) 0 1 paid_rows

inflation_rows-returns_example :
    (r : Result (List (Row formats scaled network)) × ℕ) × (inflation_rows formats scaled network
        dates accounts
        (9 ∷ 8 ∷ [])
        []
        0
      ≡ some r)
inflation_rows-returns_example =
    inflation_rows-returns formats scaled network dates accounts (9 ∷ 8 ∷ []) [] 0
      (λ epoch v rewards h. ground arith)

no_tips :
    collect_jito_tips formats network.tips accounts
      (epoch_dates_of boundaries [])
      (map (λ b. b.epoch) boundaries)
      boundaries
      cache
      1
    ≡ record { rows = []; failure = none; processed = cache; world = 1 }
unfolding collect_jito_tips collect_chunks collect_jito_tips_window collect_accounts
    collect_stake_account_tips collect_pages build_stake_account_index build_epoch_intervals is_seen
no_tips = refl

arranged :
    arrange formats scaled network (thursday + 5) (row ∷ []) 1
    ≡ (record row { validator = "Octopus" } ∷ [], 1)
unfolding arrange decorate_reward_validators validator_id reward_row to_sol sort insert_sorted keep
    reward_window_start week_floor lookup insert trim_space
arranged = refl

sorted_boundaries :
    sort newer_epoch (keep (is_relevant (reward_window_start (thursday + 5))) boundaries)
    ≡ boundaries
unfolding sort insert_sorted keep reward_window_start week_floor
sorted_boundaries = refl

dated : epoch_dates_of boundaries [] ≡ dates
unfolding epoch_dates_of insert
dated = refl

from_epochs :
    collect_epochs formats scaled network (thursday + 5) accounts boundaries cache 0
    ≡ some (ok (record row { validator = "Octopus" } ∷ []), cache, 1)
unfolding collect_epochs
from_epochs = rw (collect_epochs, dated, paid_rows, no_tips, arranged) refl

pub shown_rows :
    collect_recent_rewards formats scaled network (thursday + 5) accounts boundaries cache 0
    ≡ some (ok (record row { validator = "Octopus" } ∷ []), cache, 1)
unfolding collect_recent_rewards keep reward_window_start week_floor
shown_rows = rw sorted_boundaries from_epochs

collect_recent_rewards-Shown_example :
    Shown
      (reward_window_start (thursday + 5))
      (week_floor (thursday + 5) + 7 * day)
      (record row { validator = "Octopus" } ∷ [])
collect_recent_rewards-Shown_example =
    collect_recent_rewards-Shown formats scaled network (thursday + 5) accounts boundaries cache
      cache 0 1 (record row { validator = "Octopus" } ∷ []) shown_rows
