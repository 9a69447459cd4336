-- ===== src/Server/Tests/Rates.antt =====
-- server.go: the cash flows of two rewards, and their rate.
use go_octopi.Base.{
  ℕ, ◌≡◌, refl, ◌*◌, ◌<◌, ◌≤◌, ◌⊎◌, none, some, List, [], ◌∷◌, ◌++◌, All, arith, keep,
}
use go_octopi.Base.Fault.{ok}
use go_octopi.Base.Int.{pos}
use go_octopi.Base.Sort.{sort, Sorted}
use go_octopi.Base.Time.{Time, day}
use go_octopi.Rewards.{RewardRow}
use go_octopi.Server.Flows.{
  CashFlow, earlier, earliest_from, earliest_reward, latest_end, epoch_start_time, flow_start,
  build_cash_flows, estimate_current_epoch_end,
}
use go_octopi.Server.Flows.Ends.{EndOf, counted, build_cash_flows-ends}
use go_octopi.Server.Tests.Scaled.{scaled, strict, ordered, ieee}
use go_octopi.Server.Xirr.{xirr, xirr_newton, xnpv, sum_discounted}
use go_octopi.Server.Xirr.Halves.{Enclosed}
use go_octopi.Server.Xirr.Root.{Settled, xirr-Root}
use go_octopi.Solana.Types.{EpochBoundary}

abbrev row : ℕ → Time → RewardRow ℕ
row amount ts = record {
  date = [];
  row_type = "Staking Reward";
  amount_sol = [];
  amount_sol_value = amount;
  amount_usd = [];
  validator_vote_account = "vote";
  validator = "vote";
  epoch = pos 8;
  timestamp = ts;
}

abbrev late : RewardRow ℕ
late = row 100300000000 (739098 * day)

abbrev early : RewardRow ℕ
early = row 100200000000 (739095 * day)

abbrev rewards : List (RewardRow ℕ)
rewards = late ∷ early ∷ []

abbrev boundaries : List EpochBoundary
boundaries =
    record { epoch = 8; end_slot = 20; end_time = 739095 * day }
    ∷ record { epoch = 7; end_slot = 10; end_time = 739092 * day }
    ∷ []

found_early : earliest_reward rewards ≡ some early
unfolding earliest_reward earliest_from
found_early = refl

began : epoch_start_time 8 boundaries ≡ some (739092 * day)
unfolding epoch_start_time latest_end
began = refl

start_at : flow_start scaled early boundaries ≡ 739092 * day
unfolding flow_start epoch_start_time latest_end
start_at = refl

spaced :
    All
      (λ (f : CashFlow ℕ). (flow_start scaled early boundaries ≤ f.when) × (f.when ≤ 739100 * day))
      (counted scaled rewards)
unfolding keep
spaced = rw start_at ((omega arith, omega arith), ((omega arith, omega arith), tt))

build_cash_flows-ends_example :
    (build_cash_flows scaled (739100 * day) 110000000000 rewards boundaries none
      ≡ ok (
          record { when = flow_start scaled early boundaries; amount = 90000000000 }
            ∷ sort earlier (counted scaled rewards)
          ++ record { when = estimate_current_epoch_end (739100 * day) none; amount = 110000000000 }
            ∷ []))
    × (739100 * day < estimate_current_epoch_end (739100 * day) none)
    × EndOf (739100 * day) none (estimate_current_epoch_end (739100 * day) none)
    × Sorted earlier (sort earlier (counted scaled rewards))
build_cash_flows-ends_example =
    build_cash_flows-ends scaled (739100 * day) 110000000000 rewards boundaries none early
      found_early (rw start_at (omega arith)) spaced

-- 100 become 121 in two years.
abbrev flows : List (CashFlow ℕ)
flows =
    record { when = 739000 * day; amount = 90000000000 }
    ∷ record { when = 739730 * day; amount = 112100000000 }
    ∷ []

tenth : xirr strict flows ≡ some 100010000000
unfolding xirr xirr_newton xnpv sum_discounted
tenth = refl

xirr-Root_example :
    Settled strict ieee flows 100010000000 ⊎ Enclosed strict ordered ieee flows 100010000000
xirr-Root_example = xirr-Root strict ordered ieee flows 100010000000 tenth
