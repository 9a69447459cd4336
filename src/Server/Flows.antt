-- ===== src/Server/Flows.antt =====
-- server.go: `buildCashFlows`, the payments from which the return of a stake is computed.
pub mod Earliest
pub mod Ends
use go_octopi.Base.{
  ℕ, zero, suc, ◌+◌, ◌-◌, ◌*◌, ◌/◌, min, Bool, true, false, not, ◌&&◌, ◌||◌, Option, none, some,
  List, [], ◌∷◌, ◌++◌, last?, length, ltb, leb, nat_eq, if◌then◌else◌,
}
use go_octopi.Base.Fault.{Error, plain, Result, ok, err}
use go_octopi.Base.Int.{ℤ, pos, negsuc, is_pos, to_ℕ}
use go_octopi.Base.Sort.{sort}
use go_octopi.Base.Time.{Time, hour, is_zero_time, is_before, is_after, add_duration}
use go_octopi.Base.Word.{u64_mod, i64_limit, add64, mul64}
use go_octopi.Rewards.{RewardRow}
use go_octopi.Server.Floats.{Floats}
use go_octopi.Server.Weeks.{quotient_down}
use go_octopi.Solana.Epochs.{approx_slot_duration}
use go_octopi.Solana.Types.{EpochBoundary, EpochInfo}

pub record CashFlow (F : Type 0) : Type 0 where
  pub when : Time
  pub amount : F

-- The order of the `sort.Slice` call.
abbrev pub earlier : {F : Type 0} → CashFlow F → CashFlow F → Bool
earlier a b = is_before a.when b.when

abbrev last_time : {F : Type 0} → List (CashFlow F) → Time
last_time flows = elim (last? flows) [ none ↦ 0 | some f ↦ f.when ]

-- The end, which is pushed behind the last row.
unfoldable pub flow_end : {F : Type 0} → Time → List (CashFlow F) → Time
flow_end end flows = if leb end (last_time flows) then last_time flows + hour else end

module _ {F : Type 0} where
  -- A row with a time, of an epoch above 0.
  abbrev pub is_dated : RewardRow F → Bool
  is_dated r = not (is_zero_time r.timestamp) && is_pos r.epoch

  abbrev sooner : Option (RewardRow F) → RewardRow F → RewardRow F
  sooner none r = r
  sooner (some s) r = if is_before r.timestamp s.timestamp then r else s

  -- The loop of `earliestReward`, with the row selected so far.
  unfoldable pub earliest_from : Option (RewardRow F) → List (RewardRow F) → Option (RewardRow F)
  earliest_from selected [] = selected
  earliest_from selected (r ∷ rewards) =
      earliest_from (if is_dated r then some (sooner selected r) else selected) rewards

  unfoldable pub earliest_reward : List (RewardRow F) → Option (RewardRow F)
  unfolding earliest_from
  earliest_reward rewards = earliest_from none rewards

-- The loop of `epochStartTime`, with the latest end so far.
unfoldable pub latest_end : ℕ → Time → List EpochBoundary → Time
latest_end target start [] = start
latest_end target start (b ∷ bs) =
    latest_end target
      (if nat_eq b.epoch target && (is_zero_time start || is_after b.end_time start)
        then b.end_time
        else start)
      bs

-- epochStartTime
unfoldable pub epoch_start_time : ℕ → List EpochBoundary → Option Time
unfolding latest_end
epoch_start_time epoch boundaries =
    let start = latest_end (epoch - 1) 0 boundaries in
    if nat_eq epoch 0 || is_zero_time start then none else some start

abbrev pub later_end : EpochBoundary → EpochBoundary → Bool
later_end a b = is_after a.end_time b.end_time

-- a.Sub(b), as far as it is positive; it saturates as an int64.
abbrev pub positive_gap : Time → Time → ℕ
positive_gap a b = min (a - b) (i64_limit - 1)

-- The loop over neighbours: the sum of the positive differences, which wraps, and their number.
unfoldable pub sum_gaps : List EpochBoundary → ℕ × ℕ
sum_gaps [] = (0, 0)
sum_gaps (a ∷ []) = (0, 0)
sum_gaps (a ∷ b ∷ bs) =
    let (total, count) = sum_gaps (b ∷ bs) in
    let gap = positive_gap a.end_time b.end_time in
    if nat_eq gap 0 then (total, count) else (add64 total gap, suc count)

abbrev pub default_epoch_duration : ℕ
default_epoch_duration = 72 * hour

-- total / count of an int64's bit pattern
abbrev average : ℕ × ℕ → ℤ
average (total, count) =
    if nat_eq count 0
    then pos default_epoch_duration
    else if ltb total i64_limit
    then pos (total / count)
    else quotient_down ((u64_mod - total) / count)

-- estimateEpochDuration
unfoldable pub estimate_epoch_duration : List EpochBoundary → ℤ
unfolding sum_gaps
estimate_epoch_duration boundaries =
    if ltb (length boundaries) 2
    then pos default_epoch_duration
    else average (sum_gaps (sort later_end boundaries))

abbrev pub slots_remaining : EpochInfo → ℕ
slots_remaining info =
    if ltb info.slot_index info.slots_in_epoch
    then info.slots_in_epoch - info.slot_index
    else info.slots_in_epoch

-- max(d, time.Hour) of an int64's bit pattern
abbrev pub at_least_an_hour : ℕ → ℕ
at_least_an_hour d = if ltb d i64_limit && ltb hour d then d else hour

-- estimateCurrentEpochEnd
unfoldable pub estimate_current_epoch_end : Time → Option EpochInfo → Time
estimate_current_epoch_end now none = now + 24 * hour
estimate_current_epoch_end now (some info) =
    if nat_eq info.slots_in_epoch 0
    then now + 24 * hour
    else now + at_least_an_hour (mul64 (slots_remaining info) approx_slot_duration)

-- The duration by which the start is estimated: one that is not positive becomes the default.
abbrev positive_duration : ℤ → ℕ
positive_duration d = if is_pos d then to_ℕ d else default_epoch_duration

-- The start of the flows: that of the epoch of the earliest row, or an estimate.
abbrev start_or : Time → Option Time → Time
start_or t none = t
start_or t (some s) = s

module _ {F : Type 0} (floats : Floats F) where
  open floats use {neg, eq, of_int}

  unfoldable pub flow_start : RewardRow F → List EpochBoundary → Time
  unfolding epoch_start_time estimate_epoch_duration
  flow_start earliest boundaries =
      start_or (earliest.timestamp - positive_duration (estimate_epoch_duration boundaries))
        (epoch_start_time (to_ℕ earliest.epoch) boundaries)

  -- The loop over the rows: those with a time and an amount that is not 0.
  unfoldable pub reward_flows : List (RewardRow F) → List (CashFlow F)
  reward_flows [] = []
  reward_flows (r ∷ rewards) =
      let rest = reward_flows rewards in
      if eq r.amount_sol_value (of_int (pos 0)) || is_zero_time r.timestamp
      then rest
      else record { when = r.timestamp; amount = r.amount_sol_value } ∷ rest

  -- The flows in the order of the rows, and sorted.
  unfoldable pub flows_from : Time → F → List (RewardRow F) → Time → List (CashFlow F)
  unfolding reward_flows flow_end
  flows_from start delegated rewards end =
      let paid = record { when = start; amount = neg delegated } ∷ reward_flows rewards in
      sort earlier (paid ++ record { when = flow_end end paid; amount = delegated } ∷ [])

  -- buildCashFlows
  unfoldable pub build_cash_flows :
      Time
      → F
      → List (RewardRow F)
      → List EpochBoundary
      → Option EpochInfo
      → Result (List (CashFlow F))
  build_cash_flows now delegated rewards boundaries info = elim (earliest_reward rewards) [
    | none ↦ err (plain "no reward timestamps available")
    | some earliest ↦ ok (
        flows_from (flow_start earliest boundaries) delegated rewards
          (estimate_current_epoch_end now info))
  ]
