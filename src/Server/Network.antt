-- ===== src/Server/Network.antt =====
-- server.go: the operations of the interface `SolanaClient` that the pages of a wallet call, over the
-- state of the network behind them.
use go_octopi.Base.{ℕ, List, Option, String}
use go_octopi.Base.Fault.{Result}
use go_octopi.Base.Time.{Time}
use go_octopi.Solana.Types.{StakeAccount, InflationReward, EpochBoundary, EpochInfo}
use go_octopi.Tips.Client.{Client}

pub record Network (F : Type 0) : Type 1 where
  -- what the collection of tips calls
  pub tips : Client
  pub get_balance : String → Client.World tips → Result ℕ × Client.World tips
  pub list_stake_accounts :
      String → Client.World tips → Result (List StakeAccount) × Client.World tips
  pub get_inflation_reward :
      List String
      → ℕ
      → Client.World tips
      → Result (List (Option InflationReward)) × Client.World tips
  pub get_epoch_boundaries :
      Time → Client.World tips → Result (List EpochBoundary) × Client.World tips
  pub get_current_epoch_end : Client.World tips → Result Time × Client.World tips
  pub get_epoch_info : Client.World tips → Result EpochInfo × Client.World tips
  pub get_sol_price : Client.World tips → Result F × Client.World tips
  -- the name, which is empty where there is none; the error is only logged
  pub lookup_validator_name : String → Client.World tips → String × Client.World tips
  pub record_validator_xirr : String → F → Client.World tips → Client.World tips
