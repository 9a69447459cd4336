-- ===== src/Server/Chart/Totals.antt =====
-- server.go: the points of the chart are the totals of the weeks.
use go_octopi.Base.{
  ℕ, zero, suc, ◌+◌, ◌*◌, ◌%◌, ◌<◌, ◌≤◌, ◌≡◌, ◌≢◌, refl, Bool, true, false, not, ◌&&◌, some, List,
  [], ◌∷◌, inl, inr, ltb, leb, nat_eq, if◌then◌else◌, arith, get_elem?, keep, Bool-cases,
  Option-cases,
}
use go_octopi.Base.Time.{Time, is_zero_time}
use go_octopi.Base.Int.{pos}
use go_octopi.Rewards.{Formats, RewardRow}
use go_octopi.Server.Floats.{Floats}
use go_octopi.Server.Chart.{
  chart_index, add_at, add_rewards, zeros, WalletChart, reward_chart_payload,
}
use go_octopi.Server.Weeks.{week, week_floor, weeks_between, week_floor_lem, reward_window_start}

-- The time lies in the week that begins at `from`.
abbrev pub in_week : Time → Time → Bool
in_week from ts = not (is_zero_time ts) && leb from ts && ltb ts (from + week)

floor_of :
    (ts : Time) → (week_floor ts % week ≡ 0) × (week_floor ts ≤ ts) × (ts < week_floor ts + week)
floor_of ts = rw (week_floor_lem ts) (omega arith, omega arith, omega arith)

chart_index-in_week :
    (start ts i : ℕ)
    → start % week ≡ 0
    → i < 5
    → chart_index start ts ≡ some i
    → in_week (start + i * week) ts ≡ true
unfolding chart_index week_floor weeks_between
chart_index-in_week start ts i s l h = ground (arith, floor_of ts)

in_week-chart_index :
    (start ts i : ℕ)
    → start % week ≡ 0
    → i < 5
    → in_week (start + i * week) ts ≡ true
    → chart_index start ts ≡ some i
unfolding chart_index week_floor weeks_between
in_week-chart_index start ts i s l h = ground (arith, floor_of ts)

out_of_week :
    (start ts i : ℕ)
    → start % week ≡ 0
    → i < 5
    → chart_index start ts ≢ some i
    → in_week (start + i * week) ts ≡ false
out_of_week start ts i s l n = elim (Bool-cases (in_week (start + i * week) ts)) [
  | inl held ↦ absurd (n (in_week-chart_index start ts i s l held))
  | inr out ↦ out
]

module _ {F : Type 0} (floats : Floats F) where
  open floats use {add}

  -- The sum that a loop makes of the rows, from a first value on.
  abbrev pub total : F → List (RewardRow F) → F
  total x [] = x
  total x (r ∷ rs) = total (add x r.amount_sol_value) rs

  get_elem?-add_at :
      (i j : ℕ) (v : F) (xs : List F) (x : F)
      → get_elem? xs i ≡ some x
      → get_elem? (add_at floats j v xs) i ≡ (if nat_eq j i then some (add x v) else some x)
  unfolding add_at
  get_elem?-add_at i j v [] x h = cc
  get_elem?-add_at zero zero v (y ∷ xs) x h = ground arith
  get_elem?-add_at zero (suc j) v (y ∷ xs) x h = ground arith
  get_elem?-add_at (suc i) zero v (y ∷ xs) x h = ground arith
  get_elem?-add_at (suc i) (suc j) v (y ∷ xs) x h = ground (arith, get_elem?-add_at i j v xs x h)

  abbrev pub of_week : Time → List (RewardRow F) → List (RewardRow F)
  of_week from rewards = keep (λ r. in_week from r.timestamp) rewards

  -- Each point of the chart is the sum, in the order of the rows, of the amounts of the rows whose time
  -- lies in the point's week.
  pub add_rewards-total :
      (start i : ℕ) (rewards : List (RewardRow F)) (points : List F) (x : F)
      → start % week ≡ 0
      → i < 5
      → get_elem? points i ≡ some x
      → get_elem? (add_rewards floats start rewards points) i
        ≡ some (total x (of_week (start + i * week) rewards))
  unfolding add_rewards keep
  add_rewards-total start i [] points x s l h = h
  add_rewards-total start i (r ∷ rewards) points x s l h =
      elim (Option-cases (chart_index start r.timestamp)) [
        | inl out ↦
            rw (out, add_rewards, out_of_week start r.timestamp i s l (λ e. ground arith))
              (add_rewards-total start i rewards points x s l h)
        | inr (j, found) ↦ elim (Bool-cases (nat_eq j i)) [
          | inl same ↦
              let here : j ≡ i = ground arith in
              let held = chart_index-in_week start r.timestamp i s l (rw (← here) found) in
              rw (found, add_rewards, held)
                (add_rewards-total start i rewards (add_at floats j r.amount_sol_value points)
                  (add x r.amount_sol_value) s l
                  (ground (arith, get_elem?-add_at i j r.amount_sol_value points x h)))
          | inr other ↦
              rw (found, add_rewards, out_of_week start r.timestamp i s l (λ e. ground arith))
                (add_rewards-total start i rewards (add_at floats j r.amount_sol_value points) x s l
                  (ground (arith, get_elem?-add_at i j r.amount_sol_value points x h)))
        ]
      ]

zeros-at :
    {F : Type 0} (floats : Floats F) (i : ℕ)
    → i < 5
    → get_elem? (zeros floats 5) i ≡ some (floats.of_int (pos 0))
unfolding zeros
zeros-at floats zero l = refl
zeros-at floats (suc zero) l = refl
zeros-at floats (suc (suc zero)) l = refl
zeros-at floats (suc (suc (suc zero))) l = refl
zeros-at floats (suc (suc (suc (suc zero)))) l = refl
zeros-at floats (suc (suc (suc (suc (suc i))))) l = absurd (omega arith)

start-week : (now : Time) → reward_window_start now % week ≡ 0
unfolding reward_window_start
start-week now = omega (arith, floor_of now)

abbrev pub points_of : {F : Type 0} → WalletChart F → List F
points_of c = elim c.series [ [] ↦ [] | s ∷ ss ↦ s.points ]

-- The chart has a point for each week of the window, and the point of a week is the sum of the amounts of
-- the rows whose time lies in that week, which begins on a Monday: no row of the window is left out, and
-- none is counted twice.
pub reward_chart_payload-total :
    (fmt : Formats) (floats : Floats (Formats.Float64 fmt)) (now : Time)
    (rewards : List (RewardRow (Formats.Float64 fmt))) (i : ℕ)
    → i < 5
    → get_elem? (points_of (reward_chart_payload fmt floats now rewards)) i
      ≡ some (
          total floats
            (floats.of_int (pos 0))
            (of_week floats (reward_window_start now + i * week) rewards))
unfolding reward_chart_payload
reward_chart_payload-total fmt floats now rewards i l =
    add_rewards-total floats (reward_window_start now) i rewards (zeros floats 5)
      (floats.of_int (pos 0)) (start-week now) l (zeros-at floats i l)
