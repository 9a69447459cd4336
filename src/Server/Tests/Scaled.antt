-- ===== src/Server/Tests/Scaled.antt =====
-- server.go: the pages of a wallet with a fixed-point arithmetic in the place of float64: a number x is
-- the natural number 10^11 + x * 10^8.
use go_octopi.Base.{
  ℕ, ◌+◌, ◌-◌, ◌*◌, ◌/◌, ◌^◌, false, ltb, leb, nat_eq, if◌then◌else◌, arith, ◌||◌, refl,
}
use go_octopi.Base.Int.{ℤ, pos, negsuc}
use go_octopi.Rewards.{Formats}
use go_octopi.Base.Text.{digits}
use go_octopi.Server.Floats.{Floats}
use go_octopi.Server.Xirr.Brackets.{Ordered}
use go_octopi.Server.Xirr.Sums.{Ieee}

abbrev one : ℕ
one = 100000000

abbrev origin : ℕ
origin = 100000000000

abbrev size : ℕ → ℕ
size a = if leb origin a then a - origin else origin - a

abbrev like : ℕ → ℕ → ℕ → ℕ
like a b n =
    if leb origin a
    then (if leb origin b then origin + n else origin - n)
    else (if leb origin b then origin - n else origin + n)

abbrev mul : ℕ → ℕ → ℕ
mul a b = like a b (size a * size b / one)

-- Rounds down where the divisor is above 0.
abbrev div : ℕ → ℕ → ℕ
div a b =
    if ltb origin b
    then (a * one + origin * (b - origin) - origin * one) / (b - origin)
    else like a b (size a * one / size b)

abbrev of_int : ℤ → ℕ
of_int (pos n) = origin + n * one
of_int (negsuc n) = origin - (n + 1) * one

abbrev decimal : ℤ → ℕ → ℕ
decimal (pos n) e = origin + n * one / 10 ^ e
decimal (negsuc n) e = origin - (n + 1) * one / 10 ^ e

-- Powers of the exponents 0 and 2, and 1 in the place of the rest.
abbrev pow : ℕ → ℕ → ℕ
pow a n =
    if nat_eq n origin then origin + one else if nat_eq n (origin + 2 * one) then mul a a else a

abbrev hours : ℤ → ℕ
hours (pos n) = origin + n * one / 3600000000000
hours (negsuc n) = origin - (n + 1) * one / 3600000000000

abbrev pub scaled : Floats ℕ
scaled = record {
  add = λ a b. a + b - origin;
  sub = λ a b. a + origin - b;
  mul = mul;
  div = div;
  neg = λ a. 2 * origin - a;
  lt = ltb;
  eq = nat_eq;
  of_int = of_int;
  decimal = decimal;
  abs = λ a. origin + size a;
  pow = pow;
  is_nan = λ a. false;
  is_inf = λ a. false;
  nan = 0;
  hours = hours;
}

abbrev pub formats : Formats
formats = record {
  Float64 = ℕ;
  in_sol = λ n. n;
  format_number = digits;
  format_time = digits;
  format_day = digits;
  format_fiat_usd = digits;
  format_percent = digits;
}

-- The same with 0 in the place of NaN, and a product that is 0 only where a factor is.
abbrev strict_mul : ℕ → ℕ → ℕ
strict_mul a b =
    if nat_eq a origin || nat_eq b origin then origin else like a b (size a * size b / one + 1)

abbrev pub strict : Floats ℕ
strict = record scaled {
  sub = λ a b. if nat_eq b 0 then 0 else a + origin - b;
  mul = strict_mul;
  div = λ a b. if nat_eq a 0 then 0 else div a b;
  is_nan = λ a. nat_eq a 0;
}

pub ordered : Ordered strict
ordered = record {
  at_most_trans = λ a b c h k. ground arith;
  middle_between = λ a b h k l. (ground arith, ground arith);
  points_rise = ground arith;
}

pub ieee : Ieee strict
ieee = record {
  nan_is_nan = refl;
  nan_far = refl;
  nan_spreads = λ a d. refl;
  lt_asym = λ a b h. ground arith;
  zero_near = λ a h. ground arith;
  negative_product = λ a b h. ground arith;
  other_product = λ a b h k l. ground arith;
}
