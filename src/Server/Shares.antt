-- ===== src/Server/Shares.antt =====
-- server.go: `recordValidatorXIRR`, the returns of a wallet's validators. Each validator is recorded once,
-- in the order of the model's map.
use go_octopi.Base.{
  true, false, ◌||◌, Option, none, some, List, [], ◌∷◌, ◌++◌, String, String-Eq, Dict, lookup,
  insert, length, nat_eq, if◌then◌else◌, ◌==◌,
}
use go_octopi.Base.Int.{pos}
use go_octopi.Base.Text.{trim_space}
use go_octopi.Base.Time.{Time}
use go_octopi.Rewards.{RewardRow}
use go_octopi.Server.Floats.{Floats}
use go_octopi.Server.Network.{Network}
use go_octopi.Server.Returns.{sol_of, compute_annual_return_percent}
use go_octopi.Server.Xirr.{le}
use go_octopi.Solana.Types.{StakeAccount, EpochBoundary, EpochInfo}
use go_octopi.Tips.Client.{Client}

module _ {F : Type 0} (floats : Floats F) where
  open floats use {add, of_int, is_nan}

  abbrev float_or_zero : Option F → F
  float_or_zero none = of_int (pos 0)
  float_or_zero (some x) = x

  -- The vote account under which a stake account counts.
  abbrev pub vote_of : StakeAccount → Option String
  vote_of account =
      let id = trim_space account.vote_account in
      if (id == "") || nat_eq account.delegated_lamports 0 then none else some id

  -- The loop over the accounts: `delegated[id] += ...`
  unfoldable pub delegated_from : Dict String F → List StakeAccount → Dict String F
  delegated_from totals [] = totals
  delegated_from totals (account ∷ accounts) = elim (vote_of account) [
    | none ↦ delegated_from totals accounts
    | some id ↦
        delegated_from
          (insert id
            (add (float_or_zero (lookup id totals)) (sol_of floats account.delegated_lamports))
            totals)
          accounts
  ]

  abbrev rows_or_none : Option (List (RewardRow F)) → List (RewardRow F)
  rows_or_none none = []
  rows_or_none (some rows) = rows

  -- The loop over the rewards: `rewardIndex[id] = append(rewardIndex[id], reward)`
  unfoldable pub index_from :
      Dict String (List (RewardRow F)) → List (RewardRow F) → Dict String (List (RewardRow F))
  index_from index [] = index
  index_from index (r ∷ rewards) =
      let id = trim_space r.validator_vote_account in
      elim (id == "") [
        | true ↦ index_from index rewards
        | false ↦ index_from (insert id (rows_or_none (lookup id index) ++ r ∷ []) index) rewards
      ]

  abbrev number? : Option F → Option F
  number? none = none
  number? (some x) = if is_nan x then none else some x

  -- The rate that the loop records for a validator, if any.
  unfoldable pub rate_to_record :
      Time → F → List (RewardRow F) → List EpochBoundary → Option EpochInfo → Option F
  rate_to_record now total rows boundaries info =
      elim (le floats total (of_int (pos 0)) || nat_eq (length rows) 0) [
        | true ↦ none
        | false ↦ number? (compute_annual_return_percent floats now total rows boundaries info)
      ]

  module _ (net : Network F) where
    open net use {tips, record_validator_xirr}

    -- The loop over the validators.
    unfoldable pub record_rates :
        Time
        → Dict String (List (RewardRow F))
        → List EpochBoundary
        → Option EpochInfo
        → Dict String F
        → Client.World tips
        → Client.World tips
    record_rates now index boundaries info [] w = w
    record_rates now index boundaries info ((id, total) ∷ rest) w =
        elim (rate_to_record now total (rows_or_none (lookup id index)) boundaries info) [
          | none ↦ record_rates now index boundaries info rest w
          | some rate ↦
              record_rates now index boundaries info rest (record_validator_xirr id rate w)
        ]

    -- recordValidatorXIRR of the server
    unfoldable pub record_validator_xirrs :
        Time
        → List StakeAccount
        → List (RewardRow F)
        → List EpochBoundary
        → Option EpochInfo
        → Client.World tips
        → Client.World tips
    unfolding delegated_from index_from
    record_validator_xirrs now accounts rewards boundaries info w =
        record_rates now (index_from [] rewards) boundaries info (delegated_from [] accounts) w
