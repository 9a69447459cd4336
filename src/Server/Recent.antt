-- ===== src/Server/Recent.antt =====
-- server.go: `collectRecentRewards`, the rows of the last weeks, and `decorateRewardValidators`. The
-- server's state is the cache of processed signatures of its tip collector.
pub mod Order
pub mod Paid
use go_octopi.Base.{
  ℕ, zero, suc, ◌+◌, ◌*◌, Bool, true, false, not, ◌&&◌, ◌||◌, Option, none, some, List, [], ◌∷◌,
  ◌++◌, String, map, Dict, lookup, insert, length, drop, keep, get_elem?, ltb, leb, nat_eq,
  if◌then◌else◌, ◌==◌, ℕ-Eq, String-Eq,
}
use go_octopi.Base.Fault.{Error, wrap, wrap_at, Result, ok, err}
use go_octopi.Base.Int.{ℤ, pos, negsuc, int_of_word}
use go_octopi.Base.Sort.{sort}
use go_octopi.Base.Text.{trim_space}
use go_octopi.Base.Time.{Time, day, is_zero_time, is_before, is_after}
use go_octopi.Rewards.{Formats, RewardRow, format_reward_date}
use go_octopi.Server.Floats.{Floats}
use go_octopi.Server.Network.{Network}
use go_octopi.Server.Weeks.{week_floor, reward_window_start}
use go_octopi.Solana.Types.{StakeAccount, InflationReward, EpochBoundary}
use go_octopi.Tips.Client.{Client}
use go_octopi.Tips.Collect.{Collected, collect_jito_tips}
use go_octopi.Tips.Select.{Processed}

abbrev pub lamports_per_sol : ℤ
lamports_per_sol = pos 1000000000

-- The boundaries of the window; a boundary without a time counts as one.
abbrev pub is_relevant : Time → EpochBoundary → Bool
is_relevant start b = is_zero_time b.end_time || not (is_before b.end_time start)

-- The order of the boundaries: the newest epoch first.
abbrev pub newer_epoch : EpochBoundary → EpochBoundary → Bool
newer_epoch a b = ltb b.epoch a.epoch

-- The map from epochs to the times of their ends.
unfoldable pub epoch_dates_of : List EpochBoundary → Dict ℕ Time → Dict ℕ Time
epoch_dates_of [] dates = dates
epoch_dates_of (b ∷ bs) dates = epoch_dates_of bs (insert b.epoch b.end_time dates)

abbrev pub date_of : Option Time → Time
date_of none = 0
date_of (some t) = t

-- A reward that is there and not 0.
abbrev pub paid : Option InflationReward → Option InflationReward
paid none = none
paid (some r) = elim r.amount [ pos n ↦ if nat_eq n 0 then none else some r | negsuc n ↦ some r ]

abbrev pub int_lt : ℤ → ℤ → Bool
int_lt (pos a) (pos b) = ltb a b
int_lt (pos a) (negsuc b) = false
int_lt (negsuc a) (pos b) = true
int_lt (negsuc a) (negsuc b) = ltb b a

-- The order of the rows: the newest first, and of rows of one time the later epoch.
abbrev pub is_newer : {F : Type 0} → RewardRow F → RewardRow F → Bool
is_newer a b =
    if not (is_zero_time a.timestamp)
      && not (is_zero_time b.timestamp)
      && not (nat_eq a.timestamp b.timestamp)
    then is_after a.timestamp b.timestamp
    else int_lt b.epoch a.epoch

-- The filter on the rows.
abbrev pub in_window : {F : Type 0} → Time → Time → RewardRow F → Bool
in_window start end r =
    not (is_zero_time r.timestamp) && not (is_before r.timestamp start) && is_before r.timestamp end

module _ (fmt : Formats) (floats : Floats (Formats.Float64 fmt))
    (net : Network (Formats.Float64 fmt)) where
  open fmt use {Float64, format_number}
  open net use {tips, get_inflation_reward, lookup_validator_name}

  abbrev pub World : Type 0
  World = Client.World tips

  abbrev pub Row : Type 0
  Row = RewardRow Float64

  -- float64(lamports) / float64(lamportsPerSOL)
  unfoldable pub to_sol : ℤ → Float64
  to_sol amount = floats.div (floats.of_int amount) (floats.of_int lamports_per_sol)

  unfoldable pub reward_row : Dict ℕ Time → StakeAccount → InflationReward → Row
  unfolding to_sol format_reward_date int_of_word lookup
  reward_row dates account r =
      let date = date_of (lookup r.epoch dates) in
      record {
        date = format_reward_date fmt date r.epoch;
        row_type = "Staking Reward";
        amount_sol = format_number (to_sol r.amount);
        amount_sol_value = to_sol r.amount;
        amount_usd = [];
        validator_vote_account = account.vote_account;
        validator = account.vote_account;
        epoch = int_of_word r.epoch;
        timestamp = date;
      }

  abbrev cons_row : Row → Option (List Row) → Option (List Row)
  cons_row row none = none
  cons_row row (some rows) = some (row ∷ rows)

  -- The loop over the rewards of an epoch. `none` is a panic: a reward that no account stands for.
  unfoldable pub rows_of :
      Dict ℕ Time → List StakeAccount → List (Option InflationReward) → Option (List Row)
  rows_of dates accounts [] = some []
  rows_of dates accounts (reward ∷ rewards) =
      let rest = rows_of dates (drop 1 accounts) rewards in
      elim (paid reward) [
        | none ↦ rest
        | some r ↦ elim (get_elem? accounts 0) [
          | none ↦ none
          | some account ↦ cons_row (reward_row dates account r) rest
        ]
      ]

  -- The loop over the target epochs.
  unfoldable pub inflation_rows :
      Dict ℕ Time
      → List StakeAccount
      → List ℕ
      → List Row
      → World
      → Option (Result (List Row) × World)
  inflation_rows dates accounts [] rows w = some (ok rows, w)
  inflation_rows dates accounts (epoch ∷ epochs) rows w =
      let (reply, w1) = get_inflation_reward (map (λ a. a.address) accounts) epoch w in
      elim reply [
        | err e ↦ some (err (wrap_at "inflation reward fetch epoch" epoch e), w1)
        | ok rewards ↦ elim (rows_of dates accounts rewards) [
          | none ↦ none
          | some new ↦ inflation_rows dates accounts epochs (rows ++ new) w1
        ]
      ]

  -- The account by which the name of a row's validator is looked up.
  unfoldable pub validator_id : Row → String
  validator_id r =
      let vote = trim_space r.validator_vote_account in
      if vote == "" then trim_space r.validator else vote

  abbrev pub named : String → Row → Row
  named name r = if name == "" then r else record r { validator = name }

  -- decorateRewardValidators: each name is looked up once.
  unfoldable pub decorate_reward_validators :
      List Row → Dict String String → World → List Row × World
  decorate_reward_validators [] names w = ([], w)
  decorate_reward_validators (r ∷ rows) names w =
      let id = validator_id r in
      elim (id == "") [
        | true ↦ let (rest, w') = decorate_reward_validators rows names w in (r ∷ rest, w')
        | false ↦ elim (lookup id names) [
          | some name ↦
              let (rest, w') = decorate_reward_validators rows names w in (named name r ∷ rest, w')
          | none ↦
              let (name, w1) = lookup_validator_name id w in
              let (rest, w') = decorate_reward_validators rows (insert id name names) w1 in
              (named name r ∷ rest, w')
        ]
      ]

  -- The end of `collectRecentRewards`: the filter, the order and the names.
  unfoldable pub arrange : Time → List Row → World → List Row × World
  arrange now rows w =
      let filtered = keep (in_window (reward_window_start now) (week_floor now + 7 * day)) rows in
      decorate_reward_validators (sort is_newer filtered) [] w

  -- What `collectRecentRewards` gives, with the collector's cache and the network.
  abbrev pub Ended : Type 0
  Ended = Option (Result (List Row) × Processed × World)

  abbrev arranged : Time → List Row → Processed → World → Ended
  arranged now rows c w = let (shown, w') = arrange now rows w in some (ok shown, c, w')

  abbrev with_tips : Time → List Row → Collected fmt tips → Ended
  with_tips now rows t = elim t.failure [
    | some e ↦ some (err (wrap "jito tips" e), t.processed, t.world)
    | none ↦ arranged now (rows ++ t.rows) t.processed t.world
  ]

  abbrev nothing : Processed → World → Ended
  nothing c w = some (ok [], c, w)

  -- The part behind the choice of the boundaries, newest epoch first.
  unfoldable pub collect_epochs :
      Time → List StakeAccount → List EpochBoundary → Processed → World → Ended
  collect_epochs now accounts sorted c w =
      let targets = map (λ b. b.epoch) sorted in
      let dates = epoch_dates_of sorted [] in
      elim (inflation_rows dates accounts targets [] w) [
        | none ↦ none
        | some (err e, w1) ↦ some (err e, c, w1)
        | some (ok rows, w1) ↦
            with_tips now rows (collect_jito_tips fmt tips accounts dates targets sorted c w1)
      ]

  -- collectRecentRewards
  unfoldable pub collect_recent_rewards :
      Time → List StakeAccount → List EpochBoundary → Processed → World → Ended
  collect_recent_rewards now accounts boundaries c w =
      let relevant = keep (is_relevant (reward_window_start now)) boundaries in
      if nat_eq (length accounts) 0 || nat_eq (length relevant) 0
      then nothing c w
      else collect_epochs now accounts (sort newer_epoch relevant) c w
