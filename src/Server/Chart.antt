-- ===== src/Server/Chart.antt =====
-- server.go: `rewardChartPayload`, the rewards of five weeks.
pub mod Totals
use go_octopi.Base.{
  ℕ, zero, suc, ◌+◌, ◌*◌, Bool, String, Option, none, some, List, [], ◌∷◌, map, ltb, if◌then◌else◌,
}
use go_octopi.Base.Int.{ℤ, pos, negsuc}
use go_octopi.Base.Time.{Time, is_zero_time}
use go_octopi.Rewards.{Formats, RewardRow}
use go_octopi.Server.Floats.{Floats}
use go_octopi.Server.Weeks.{
  week, reward_chart_weeks, week_floor, reward_window_start, weeks_between,
}

pub record ChartSeries (F : Type 0) : Type 0 where
  pub name : String
  pub points : List F

pub record WalletChart (F : Type 0) : Type 0 where
  pub labels : List (List ℕ)
  pub series : List (ChartSeries F)

-- An index in range: `if index < 0 || index >= rewardChartWeeks { continue }`.
abbrev in_chart : ℤ → Option ℕ
in_chart (negsuc n) = none
in_chart (pos i) = if ltb i reward_chart_weeks then some i else none

-- The point of the chart to which a time adds; the zero time adds to none.
unfoldable pub chart_index : Time → Time → Option ℕ
unfolding weeks_between
chart_index start ts =
    if is_zero_time ts then none else in_chart (weeks_between start (week_floor ts))

-- start, start.AddDate(0, 0, 7), … for the weeks of the chart
unfoldable pub weeks_from : Time → ℕ → List Time
weeks_from start zero = []
weeks_from start (suc n) = start ∷ weeks_from (start + week) n

module _ {F : Type 0} (floats : Floats F) where
  open floats use {add}

  -- data[index] += value
  unfoldable pub add_at : ℕ → F → List F → List F
  add_at i v [] = []
  add_at zero v (x ∷ xs) = add x v ∷ xs
  add_at (suc i) v (x ∷ xs) = x ∷ add_at i v xs

  -- The loop over the rewards.
  unfoldable pub add_rewards : Time → List (RewardRow F) → List F → List F
  add_rewards start [] points = points
  add_rewards start (r ∷ rewards) points = elim (chart_index start r.timestamp) [
    | none ↦ add_rewards start rewards points
    | some i ↦ add_rewards start rewards (add_at i r.amount_sol_value points)
  ]

  unfoldable pub zeros : ℕ → List F
  zeros zero = []
  zeros (suc n) = floats.of_int (pos 0) ∷ zeros n

module _ (fmt : Formats) (floats : Floats (Formats.Float64 fmt)) where
  open fmt use {Float64, format_day}

  -- rewardChartPayload
  unfoldable pub reward_chart_payload : Time → List (RewardRow Float64) → WalletChart Float64
  unfolding reward_window_start weeks_from zeros
  reward_chart_payload now rewards =
      let start = reward_window_start now in
      record {
        labels = map format_day (weeks_from start reward_chart_weeks);
        series =
            record {
              name = "Rewards (SOL)";
              points = add_rewards floats start rewards (zeros floats reward_chart_weeks);
            }
            ∷ [];
      }
