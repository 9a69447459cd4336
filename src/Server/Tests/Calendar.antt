-- ===== src/Server/Tests/Calendar.antt =====
-- server.go: weeks, and a chart of three rows.
use go_octopi.Base.{ℕ, ◌≡◌, refl, ◌+◌, ◌-◌, ◌*◌, ◌%◌, some, List, [], ◌∷◌, get_elem?, arith}
use go_octopi.Base.Int.{pos}
use go_octopi.Base.Time.{Time, day, hour}
use go_octopi.Rewards.{RewardRow}
use go_octopi.Server.Chart.{reward_chart_payload}
use go_octopi.Server.Chart.Totals.{points_of, total, of_week, reward_chart_payload-total}
use go_octopi.Server.Tests.Scaled.{scaled, formats}
use go_octopi.Server.Weeks.{week, week_floor, week_floor_lem, reward_window_start}

-- A Thursday, 1 August 2024, at noon.
abbrev thursday : Time
thursday = 739098 * day + 12 * hour

monday : week_floor thursday ≡ 739095 * day
unfolding week_floor
monday = refl

week_floor_lem_example : week_floor thursday ≡ thursday - thursday % week
week_floor_lem_example = week_floor_lem thursday

abbrev row : ℕ → Time → RewardRow ℕ
row amount ts = record {
  date = [];
  row_type = "Staking Reward";
  amount_sol = [];
  amount_sol_value = amount;
  amount_usd = [];
  validator_vote_account = "vote";
  validator = "vote";
  epoch = pos 7;
  timestamp = ts;
}

abbrev rows : List (RewardRow ℕ)
rows =
    row 100200000000 thursday
    ∷ row 100300000000 (739095 * day)
    ∷ row 100500000000 (739095 * day - 1)
    ∷ []

reward_chart_payload-total_example :
    get_elem? (points_of (reward_chart_payload formats scaled thursday rows)) 4
    ≡ some (
        total scaled
          (scaled.of_int (pos 0))
          (of_week scaled (reward_window_start thursday + 4 * week) rows))
reward_chart_payload-total_example =
    reward_chart_payload-total formats scaled thursday rows 4 (omega arith)
