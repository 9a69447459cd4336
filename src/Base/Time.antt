-- ===== src/Base/Time.antt =====
-- `time.Time` in UTC: the nanoseconds since the start of year 1, which is Go's zero time. Times
-- before year 1 are not represented. A positive `time.Duration` is its nanoseconds.
use Prim.Native.Nat.{ℕ, suc, ◌+◌, ◌-◌, ◌*◌}
use mathlib.Core.Bool.{Bool}
use go_octopi.Base.Int.{ℤ, pos, negsuc}
use go_octopi.Base.Test.{ltb, nat_eq, if◌then◌else◌}
use go_octopi.Base.Word.{i64_limit, u64_mod}

abbrev pub Time : Type 0
Time = ℕ

abbrev pub is_zero_time : Time → Bool
is_zero_time t = nat_eq t 0

abbrev pub is_before : Time → Time → Bool
is_before a b = ltb a b

abbrev pub is_after : Time → Time → Bool
is_after a b = ltb b a

abbrev pub second : ℕ
second = 1000000000

abbrev pub millisecond : ℕ
millisecond = 1000000

abbrev pub minute : ℕ
minute = 60000000000

abbrev pub hour : ℕ
hour = 3600000000000

abbrev pub day : ℕ
day = 86400000000000

-- time.Unix(s, 0).UTC()
unfoldable pub unix : ℤ → Time
unix (pos s) = (s + 62135596800) * second
unix (negsuc n) = (62135596800 - suc n) * second

-- t.Add(d) for the bit pattern `d` of an int64.
unfoldable pub add_duration : Time → ℕ → Time
add_duration t d = if ltb d i64_limit then t + d else t - (u64_mod - d)
