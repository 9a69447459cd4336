-- ===== src/Rewards.antt =====
-- server.go: a row of the reward table, and the library's formats that fill it.
use go_octopi.Base.{ℕ, List, ◌++◌, String, if◌then◌else◌}
use go_octopi.Base.Int.{ℤ}
use go_octopi.Base.Text.{codes, digits}
use go_octopi.Base.Time.{Time, is_zero_time}

-- What `fmt`, `time` and the float64 arithmetic of the processor give: the program only hands the
-- values on.
pub record Formats : Type 1 where
  -- float64
  pub Float64 : Type 0
  -- float64(lamports) / lamportsPerSOL
  pub in_sol : ℕ → Float64
  -- fmt.Sprintf("%.9f", value)
  pub format_number : Float64 → List ℕ
  -- ts.UTC().Format(rewardDateFormat)
  pub format_time : Time → List ℕ
  -- week.Format("Jan 02")
  pub format_day : Time → List ℕ
  -- fmt.Sprintf("≈ $%.2f", amount)
  pub format_fiat_usd : Float64 → List ℕ
  -- fmt.Sprintf("%.2f%%", percent)
  pub format_percent : Float64 → List ℕ

-- RewardRow, over the type of its float64 field.
pub record RewardRow (F : Type 0) : Type 0 where
  pub date : List ℕ
  pub row_type : String
  pub amount_sol : List ℕ
  pub amount_sol_value : F
  pub amount_usd : List ℕ
  pub validator_vote_account : String
  pub validator : String
  pub epoch : ℤ
  pub timestamp : Time

module _ (fmt : Formats) where
  open fmt use {format_time}

  -- formatRewardDate
  unfoldable pub format_reward_date : Time → ℕ → List ℕ
  unfolding digits
  format_reward_date ts epoch =
      if is_zero_time ts then codes "Epoch " ++ digits epoch else format_time ts ++ codes " UTC"
