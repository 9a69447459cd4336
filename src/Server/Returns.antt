-- ===== src/Server/Returns.antt =====
-- server.go: what the page of a wallet shows, from its balances, its rewards and the price of SOL.
use go_octopi.Base.{
  ℕ, true, false, not, ◌&&◌, ◌||◌, Option, none, some, List, [], ◌∷◌, ◌++◌, String, map, length,
  ltb, nat_eq, if◌then◌else◌,
}
use go_octopi.Base.Fault.{Result, ok, err}
use go_octopi.Base.Int.{pos}
use go_octopi.Base.Text.{codes}
use go_octopi.Base.Time.{Time, is_zero_time, is_before}
use go_octopi.Rewards.{Formats, RewardRow}
use go_octopi.Server.Floats.{Floats}
use go_octopi.Server.Flows.{CashFlow, build_cash_flows}
use go_octopi.Server.Recent.{lamports_per_sol}
use go_octopi.Server.Weeks.{days_before}
use go_octopi.Server.Xirr.{le, xirr}
use go_octopi.Solana.Types.{EpochBoundary, EpochInfo}

-- WalletMetric
pub record WalletMetric : Type 0 where
  pub label : String
  pub value : List ℕ
  pub subtext : List ℕ
  pub tooltip : String

-- WalletData, over the type of its float64 fields.
pub record WalletData (F : Type 0) : Type 0 where
  pub network : String
  pub updated : List ℕ
  pub address : String
  pub balance_crypto : List ℕ
  pub balance_fiat : List ℕ
  pub balance_sol : F
  pub delegated_sol : F
  pub metrics : List WalletMetric
  pub rewards : List (RewardRow F)
  pub chart_json : List ℕ

abbrev pub wallet_reward_metric_window_days : ℕ
wallet_reward_metric_window_days = 28

abbrev pub wallet_annual_return_tooltip : String
wallet_annual_return_tooltip =
    "Calcuated as XIRR over the current week plus the previous 4 weeks based on staking rewards and deposits."

module _ {F : Type 0} (floats : Floats F) where
  open floats use {add, sub, mul, div, lt, eq, of_int, decimal, is_nan}

  abbrev zero_float : F
  zero_float = of_int (pos 0)

  -- float64(lamports) / lamportsPerSOL of a uint64
  abbrev pub sol_of : ℕ → F
  sol_of lamports = div (of_int (pos lamports)) (of_int lamports_per_sol)

  abbrev pub default_annual_return_percent : F
  default_annual_return_percent = decimal (pos 826) 2

  -- The loop of `sumRewardsSince`, with the total so far.
  unfoldable pub sum_from : F → Time → List (RewardRow F) → F
  sum_from total cutoff [] = total
  sum_from total cutoff (r ∷ rewards) =
      if not (is_zero_time r.timestamp) && is_before r.timestamp cutoff
      then sum_from total cutoff rewards
      else sum_from (add total r.amount_sol_value) cutoff rewards

  -- sumRewardsSince
  unfoldable pub sum_rewards_since : List (RewardRow F) → Time → F
  unfolding sum_from
  sum_rewards_since rewards cutoff = sum_from zero_float cutoff rewards

  abbrev in_percent : Option F → Option F
  in_percent none = none
  in_percent (some rate) = some (mul rate (of_int (pos 100)))

  abbrev rate_of : Result (List (CashFlow F)) → Option F
  rate_of (err e) = none
  rate_of (ok flows) = if ltb (length flows) 2 then none else in_percent (xirr floats flows)

  -- computeAnnualReturnPercent
  unfoldable pub compute_annual_return_percent :
      Time → F → List (RewardRow F) → List EpochBoundary → Option EpochInfo → Option F
  compute_annual_return_percent now delegated rewards boundaries info =
      elim (le floats delegated zero_float || nat_eq (length rewards) 0) [
        | true ↦ none
        | false ↦ rate_of (build_cash_flows floats now delegated rewards boundaries info)
      ]

  abbrev number_or : F → Option F → F
  number_or fallback none = fallback
  number_or fallback (some x) = if is_nan x then fallback else x

  -- The annual return that `buildWalletMetrics` shows.
  unfoldable pub annual_return :
      Time → F → List (RewardRow F) → List EpochBoundary → Option EpochInfo → F
  annual_return now delegated rewards boundaries info = elim (lt zero_float delegated) [
    | true ↦
        number_or default_annual_return_percent
          (compute_annual_return_percent now delegated rewards boundaries info)
    | false ↦ default_annual_return_percent
  ]

module _ (fmt : Formats) (floats : Floats (Formats.Float64 fmt)) where
  open fmt use {Float64, format_number, format_fiat_usd, format_percent}
  open floats use {add, mul, lt, eq, of_int}

  -- rewardMetricSubtext; no price is one that could not be fetched.
  unfoldable pub reward_metric_subtext : Float64 → Option Float64 → List ℕ
  reward_metric_subtext sum none = codes "Last 28 days"
  reward_metric_subtext sum (some price) =
      if lt (of_int (pos 0)) price then format_fiat_usd (mul sum price) else codes "Last 28 days"

  abbrev fiat_of : Float64 → Option Float64 → List ℕ
  fiat_of total none = []
  fiat_of total (some price) = format_fiat_usd (mul total price)

  -- buildWalletData, with the text of the present time.
  unfoldable pub build_wallet_data : List ℕ → String → ℕ → ℕ → Option Float64 → WalletData Float64
  build_wallet_data updated address lamports delegated_lamports price =
      let liquid = sol_of floats lamports in
      let delegated = sol_of floats delegated_lamports in
      let total = add liquid delegated in
      record {
        network = "Solana Mainnet";
        updated = updated;
        address = address;
        balance_crypto = format_number total ++ codes " SOL";
        balance_fiat = fiat_of total price;
        balance_sol = total;
        delegated_sol = delegated;
        metrics = [];
        rewards = [];
        chart_json = [];
      }

  -- buildWalletMetrics
  unfoldable pub build_wallet_metrics :
      Time
      → Float64
      → List (RewardRow Float64)
      → List EpochBoundary
      → Option EpochInfo
      → Option Float64
      → List WalletMetric
  unfolding sum_rewards_since
  build_wallet_metrics now delegated rewards boundaries info price =
      let sum =
        sum_rewards_since floats rewards (days_before now wallet_reward_metric_window_days) in
      record {
        label = "Staked Balance";
        value = format_number delegated ++ codes " SOL";
        subtext = codes "Currently delegated";
        tooltip = "";
      }
      ∷ record {
        label = "28d Rewards";
        value = format_number sum ++ codes " SOL";
        subtext = reward_metric_subtext sum price;
        tooltip = "";
      }
      ∷ record {
        label = "Annual Return";
        value = format_percent (annual_return floats now delegated rewards boundaries info);
        subtext = codes "Projected APY";
        tooltip = wallet_annual_return_tooltip;
      }
      ∷ []

  abbrev pub in_fiat : Float64 → RewardRow Float64 → RewardRow Float64
  in_fiat price r =
      if eq r.amount_sol_value (of_int (pos 0))
      then r
      else record r { amount_usd = format_fiat_usd (mul r.amount_sol_value price) }

  -- applyRewardFiatValues
  unfoldable pub apply_reward_fiat_values :
      Float64 → List (RewardRow Float64) → List (RewardRow Float64)
  apply_reward_fiat_values price rewards =
      if le floats price (of_int (pos 0)) then rewards else map (in_fiat price) rewards
