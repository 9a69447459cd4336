-- ===== src/Tips/Transaction.antt =====
-- jito_tips.go: what one transaction pays to one stake account, `computeTipLamports`,
-- `transactionHasJitoInstruction` and the body of the loop over the fetched transactions.
pub mod Gains
pub mod Paying
use go_octopi.Base.{
  ℕ, suc, ◌-◌, Bool, false, ◌||◌, ◌&&◌, Option, none, some, List, [], ◌∷◌, String, Dict, lookup,
  length, get_elem?, ltb, leb, if◌then◌else◌, ◌==◌, String-Eq, ℕ-Eq, nat_eq,
}
use go_octopi.Base.Int.{is_pos, int_of_word}
use go_octopi.Base.Time.{Time, is_zero_time, unix}
use go_octopi.Rewards.{Formats, RewardRow, format_reward_date}
use go_octopi.Solana.Types.{TransactionDetail, TransactionInstruction, InnerInstruction}
use go_octopi.Tips.Intervals.{SlotInterval, epoch_for_slot}

-- isJitoProgram, with the keys of `jitoProgramIDs`.
unfoldable pub is_jito_program : String → Bool
is_jito_program id =
    (id == "JitoTipDistribution11111111111111111111111111111")
    || (id == "RouterBmuRBkPUbgEDMtdvTZ75GBdSREZR5uGUxxxpb")
    || (id == "4R3gSG8BpU4t19KYj8CfnbtRpnT8gtk4dvTHxVRwc2r7")

unfoldable pub runs_jito : List TransactionInstruction → Bool
unfolding is_jito_program
runs_jito [] = false
runs_jito (inst ∷ insts) = is_jito_program inst.program_id || runs_jito insts

unfoldable pub inner_runs_jito : List InnerInstruction → Bool
unfolding runs_jito
inner_runs_jito [] = false
inner_runs_jito (inner ∷ inners) = runs_jito inner.instructions || inner_runs_jito inners

-- transactionHasJitoInstruction
unfoldable pub transaction_has_jito_instruction : TransactionDetail → Bool
unfolding runs_jito inner_runs_jito
transaction_has_jito_instruction d =
    runs_jito d.instructions || inner_runs_jito d.meta.inner_instructions

-- timestampFromDetail
unfoldable pub timestamp_from_detail : TransactionDetail → Time
unfolding unix
timestamp_from_detail d = elim d.block_time [ none ↦ 0 | some t ↦ if is_pos t then unix t else 0 ]

-- post - pre where post > pre; a missing balance counts as no gain.
unfoldable pub gain : Option ℕ → Option ℕ → ℕ
gain none pre = 0
gain (some post) none = 0
gain (some post) (some pre) = if ltb pre post then post - pre else 0

-- The loop of `computeTipLamports`, from the account key at `idx` on.
unfoldable pub first_gain : ℕ → List String → List ℕ → List ℕ → String → ℕ
unfolding gain
first_gain idx [] post pre authority = 0
first_gain idx (key ∷ keys) post pre authority =
    let rest = first_gain (suc idx) keys post pre authority in
    let here = gain (get_elem? post idx) (get_elem? pre idx) in
    if (key == authority) && ltb 0 here then here else rest

-- computeTipLamports, for a transaction that is there.
unfoldable pub compute_tip_lamports : TransactionDetail → String → ℕ
unfolding first_gain
compute_tip_lamports d authority =
    first_gain 0 d.account_keys d.meta.post_balances d.meta.pre_balances authority

pub record TrackedStakeAccount : Type 0 where
  pub address : String
  pub validator : String

-- What the window of a request fixes.
pub record Window : Type 0 where
  pub allowed : List ℕ
  pub intervals : Dict ℕ SlotInterval
  pub epoch_dates : Dict ℕ Time
  pub min_slot : ℕ

unfoldable pub includes : ℕ → List ℕ → Bool
includes n [] = false
includes n (x ∷ xs) = (x == n) || includes n xs

unfoldable pub date_or : Time → Option Time → Time
date_or ts none = ts
date_or ts (some d) = if is_zero_time ts then d else ts

module _ (fmt : Formats) where
  open fmt use {Float64, in_sol, format_number}

  unfoldable pub tip_row :
      Window → TrackedStakeAccount → TransactionDetail → ℕ → ℕ → RewardRow Float64
  unfolding timestamp_from_detail date_or int_of_word format_reward_date lookup
  tip_row win account d epoch lamports =
      let ts = date_or (timestamp_from_detail d) (lookup epoch win.epoch_dates) in
      record {
        date = format_reward_date fmt ts epoch;
        row_type = "Jito Tip";
        amount_sol = format_number (in_sol lamports);
        amount_sol_value = in_sol lamports;
        amount_usd = [];
        validator_vote_account = account.validator;
        validator = if account.validator == "" then "Unknown" else account.validator;
        epoch = int_of_word epoch;
        timestamp = ts;
      }

  -- The end of the loop's body: an epoch that is allowed, and a gain.
  unfoldable pub tip_in_epoch :
      Window → TrackedStakeAccount → TransactionDetail → Option ℕ → Option (RewardRow Float64)
  unfolding includes compute_tip_lamports tip_row
  tip_in_epoch win account d none = none
  tip_in_epoch win account d (some epoch) =
      let lamports = compute_tip_lamports d account.address in
      if includes epoch win.allowed && ltb 0 lamports
      then some (tip_row win account d epoch lamports)
      else none

  -- The loop's body: the row that a fetched transaction gives, if it gives one.
  unfoldable pub tip_of :
      Window → TrackedStakeAccount → Option TransactionDetail → Option (RewardRow Float64)
  unfolding tip_in_epoch transaction_has_jito_instruction epoch_for_slot
  tip_of win account none = none
  tip_of win account (some d) =
      if nat_eq (length d.meta.failure) 0
        && leb win.min_slot d.slot
        && transaction_has_jito_instruction d
      then tip_in_epoch win account d (epoch_for_slot d.slot win.intervals)
      else none
