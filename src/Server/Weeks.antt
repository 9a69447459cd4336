-- ===== src/Server/Weeks.antt =====
-- server.go: `weekFloor`, `weeksBetween` and `rewardWindowStart`. The calendar of UTC has days of one
-- length, so a date is the number of its days since 1 January of year 1, a Monday.
use go_octopi.Base.{ℕ, ◌+◌, ◌-◌, ◌*◌, ◌/◌, ◌%◌, ◌≡◌, min, arith, leb, nat_eq, if◌then◌else◌}
use go_octopi.Base.Int.{ℤ, pos, negsuc}
use go_octopi.Base.Time.{Time, day}
use go_octopi.Base.Word.{i64_limit}

abbrev pub week : ℕ
week = 7 * day

abbrev pub reward_lookback_weeks : ℕ
reward_lookback_weeks = 4

abbrev pub reward_chart_weeks : ℕ
reward_chart_weeks = reward_lookback_weeks + 1

-- int(t.Weekday()): Sunday is 0.
abbrev pub weekday : Time → ℕ
weekday t = (t / day + 1) % 7

-- t.AddDate(0, 0, -n)
abbrev pub days_before : Time → ℕ → Time
days_before t n = t - n * day

-- weekFloor
unfoldable pub week_floor : Time → Time
week_floor t =
    let days_since_monday = (weekday t + 6) % 7 in days_before (t - t % day) days_since_monday

-- rewardWindowStart
unfoldable pub reward_window_start : Time → Time
unfolding week_floor
reward_window_start now = days_before (week_floor now) (7 * reward_lookback_weeks)

-- target.Sub(start) saturates as an int64, and the division rounds towards zero.
abbrev pub quotient_down : ℕ → ℤ
quotient_down q = if nat_eq q 0 then pos 0 else negsuc (q - 1)

-- weeksBetween
unfoldable pub weeks_between : Time → Time → ℤ
weeks_between start target =
    if leb start target
    then pos (min (target - start) (i64_limit - 1) / week)
    else quotient_down (min (start - target) i64_limit / week)

-- `weekFloor` rounds a time down to a multiple of seven days.
pub week_floor_lem : (t : Time) → week_floor t ≡ t - t % week
unfolding week_floor
week_floor_lem t = omega arith
