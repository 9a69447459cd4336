-- ===== src/Server/Demo.antt =====
-- server.go: `demoWalletData`, the wallet of the demo page. The dates are seconds since 1970; products
-- and sums of constants are exact, as the compiler makes them.
use go_octopi.Base.{ℕ, ◌+◌, ◌*◌, List, [], ◌∷◌, ◌++◌, String}
use go_octopi.Base.Int.{pos}
use go_octopi.Base.Text.{codes}
use go_octopi.Base.Time.{Time, unix}
use go_octopi.Rewards.{Formats, RewardRow, format_reward_date}
use go_octopi.Server.Chart.{WalletChart}
use go_octopi.Server.Floats.{Floats}
use go_octopi.Server.Returns.{
  WalletData, WalletMetric, default_annual_return_percent, wallet_annual_return_tooltip,
}

module _ (fmt : Formats) (floats : Floats (Formats.Float64 fmt)) where
  open fmt use {Float64, format_number, format_fiat_usd, format_percent}
  open floats use {mul, decimal}

  -- totalSOL: Go adds the two constants exactly, 340.456647705 and 340.454186848.
  abbrev pub total_sol : Float64
  total_sol = decimal (pos (340456647705 + 340454186848)) 9

  abbrev pub staked_sol : Float64
  staked_sol = decimal (pos 340454186848) 9

  abbrev pub rewards_28d : Float64
  rewards_28d = decimal (pos 230228288) 8

  abbrev pub demo_price : Float64
  demo_price = decimal (pos 180) 0

  -- chartPayload
  unfoldable pub demo_chart : WalletChart Float64
  demo_chart = record {
    labels =
        codes "Oct 13" ∷ codes "Oct 20" ∷ codes "Oct 27" ∷ codes "Nov 03" ∷ codes "Nov 10" ∷ [];
    series =
        record {
          name = "Rewards (SOL)";
          points =
              decimal (pos 45) 2
              ∷ decimal (pos 52) 2
              ∷ decimal (pos 50) 2
              ∷ decimal (pos 63) 2
              ∷ decimal (pos 18) 2
              ∷ [];
        }
        ∷ [];
  }

  -- An entry of `rewardEntries`: hundredths of a SOL, its text, the validator, the epoch and the time.
  abbrev demo_entry : ℕ → String → String → ℕ → Time → RewardRow Float64
  demo_entry hundredths amount name epoch time = record {
    date = format_reward_date fmt time epoch;
    row_type = "Reward";
    amount_sol = codes amount;
    amount_sol_value = decimal (pos hundredths) 2;
    amount_usd = format_fiat_usd (decimal (pos (hundredths * 180)) 2);
    validator_vote_account = "";
    validator = name;
    epoch = pos epoch;
    timestamp = time;
  }

  -- rewardEntries
  unfoldable pub demo_rewards : List (RewardRow Float64)
  demo_rewards =
      demo_entry 17 "0.17" "Atlas Nodes" 562 (unix (pos 1762522800))
      ∷ demo_entry 16 "0.16" "North Star" 561 (unix (pos 1762330500))
      ∷ demo_entry 16 "0.16" "Atlas Nodes" 560 (unix (pos 1761995100))
      ∷ demo_entry 15 "0.15" "SolGuard" 559 (unix (pos 1761807000))
      ∷ []

  -- The metrics of the demo.
  unfoldable pub demo_metrics : List WalletMetric
  demo_metrics =
      record {
        label = "Staked Balance";
        value = format_number staked_sol ++ codes " SOL";
        subtext = codes "Across 12 validators";
        tooltip = "";
      }
      ∷ record {
        label = "28d Rewards";
        value = format_number rewards_28d ++ codes " SOL";
        subtext = format_fiat_usd (decimal (pos (230228288 * 180)) 8);
        tooltip = "";
      }
      ∷ record {
        label = "Annual Return";
        value = format_percent (default_annual_return_percent floats);
        subtext = codes "Projected APY";
        tooltip = wallet_annual_return_tooltip;
      }
      ∷ []

  -- demoWalletData, with the JSON of its chart
  unfoldable pub demo_wallet_data : List ℕ → WalletData Float64
  demo_wallet_data chart_json = record {
    network = "Solana Mainnet";
    updated = codes "09 Nov 2025 13:40 UTC";
    address = "3k6...tG8Z";
    balance_crypto = format_number total_sol ++ codes " SOL";
    balance_fiat = format_fiat_usd (mul total_sol demo_price);
    balance_sol = total_sol;
    delegated_sol = staked_sol;
    metrics = demo_metrics;
    rewards = demo_rewards;
    chart_json = chart_json;
  }
