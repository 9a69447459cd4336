-- ===== src/Server/Xirr.antt =====
-- server.go: `xirr`, the annual rate at which the cash flows balance, by Newton's method and, where that
-- fails, by bisection.
pub mod Brackets
pub mod Root
pub mod Sums
pub mod Halves
use go_octopi.Base.{
  ℕ, zero, suc, ◌+◌, ◌-◌, min, Bool, true, false, not, ◌||◌, Option, none, some, List, [], ◌∷◌,
  length, ltb, leb, if◌then◌else◌,
}
use go_octopi.Base.Int.{ℤ, pos, negsuc}
use go_octopi.Base.Time.{Time}
use go_octopi.Base.Word.{i64_limit}
use go_octopi.Server.Floats.{Floats}
use go_octopi.Server.Flows.{CashFlow}

-- a.Sub(b), which saturates as an int64.
abbrev pub duration_since : Time → Time → ℤ
duration_since a b =
    if leb b a then pos (min (a - b) (i64_limit - 1)) else negsuc (min (b - a) i64_limit - 1)

module _ {F : Type 0} (floats : Floats F) where
  open floats use {
    add, sub, mul, div, neg, lt, eq, of_int, decimal, abs, pow, is_nan, is_inf, nan, hours,
  }

  -- a <= b
  abbrev pub le : F → F → Bool
  le a b = lt a b || eq a b

  abbrev zero_float : F
  zero_float = of_int (pos 0)

  -- flow.when.Sub(base).Hours() / (24 * 365.0)
  abbrev years_since : Time → Time → F
  years_since base t = div (hours (duration_since t base)) (of_int (pos 8760))

  -- The loop of `xnpv`.
  unfoldable pub sum_discounted : Time → F → F → List (CashFlow F) → F
  sum_discounted base factor total [] = total
  sum_discounted base factor total (f ∷ flows) =
      let discount = pow factor (years_since base f.when) in
      elim (eq discount zero_float) [
        | true ↦ nan
        | false ↦ sum_discounted base factor (add total (div f.amount discount)) flows
      ]

  -- `xnpv`, for flows that are there.
  unfoldable pub xnpv : F → List (CashFlow F) → F
  unfolding sum_discounted
  xnpv rate [] = zero_float
  xnpv rate (f ∷ flows) =
      let factor = add (of_int (pos 1)) rate in
      if le factor zero_float then nan else sum_discounted f.when factor zero_float (f ∷ flows)

  -- The loop of `xnpvDerivative`.
  unfoldable pub sum_slopes : Time → F → F → List (CashFlow F) → F
  sum_slopes base factor total [] = total
  sum_slopes base factor total (f ∷ flows) =
      let years = years_since base f.when in
      let discount = pow factor (add years (of_int (pos 1))) in
      elim (eq discount zero_float) [
        | true ↦ nan
        | false ↦ sum_slopes base factor (add total (div (mul (neg years) f.amount) discount)) flows
      ]

  -- xnpvDerivative
  unfoldable pub xnpv_derivative : F → List (CashFlow F) → F
  unfolding sum_slopes
  xnpv_derivative rate [] = zero_float
  xnpv_derivative rate (f ∷ flows) =
      let factor = add (of_int (pos 1)) rate in
      if le factor zero_float then nan else sum_slopes f.when factor zero_float (f ∷ flows)

  abbrev pub tolerance : F
  tolerance = decimal (pos 1) 8

  -- rate - npv/derivative
  abbrev pub newton_step : List (CashFlow F) → F → F
  newton_step flows rate = sub rate (div (xnpv rate flows) (xnpv_derivative rate flows))

  abbrev pub is_flat : F → Bool
  is_flat d = eq d zero_float || is_nan d

  abbrev pub is_lost : F → Bool
  is_lost next = is_nan next || is_inf next || le next (decimal (negsuc 999998) 6)

  -- The loop of `xirrNewton`, with the rounds that it has left.
  unfoldable pub xirr_newton : ℕ → List (CashFlow F) → F → Option F
  xirr_newton zero flows rate = none
  xirr_newton (suc rounds) flows rate = elim (lt (abs (xnpv rate flows)) tolerance) [
    | true ↦ some rate
    | false ↦ elim (is_flat (xnpv_derivative rate flows)) [
      | true ↦ none
      | false ↦
          let next = newton_step flows rate in
          elim (is_lost next) [
            | true ↦ none
            | false ↦ elim (lt (abs (sub next rate)) tolerance) [
              | true ↦ some next
              | false ↦ xirr_newton rounds flows next
            ]
          ]
    ]
  ]

  -- The points that `bracketXIRR` tries.
  abbrev pub points : List F
  points =
      decimal (negsuc 8) 1
      ∷ decimal (negsuc 4) 1
      ∷ decimal (negsuc 1) 1
      ∷ decimal (pos 0) 1
      ∷ decimal (pos 5) 2
      ∷ decimal (pos 1) 1
      ∷ decimal (pos 2) 1
      ∷ decimal (pos 5) 1
      ∷ decimal (pos 10) 1
      ∷ decimal (pos 20) 1
      ∷ decimal (pos 50) 1
      ∷ decimal (pos 75) 1
      ∷ decimal (pos 100) 1
      ∷ []

  -- The loop of `bracketXIRR`, from a point on.
  unfoldable pub bracket_from : List (CashFlow F) → F → List F → Option (F × F)
  bracket_from flows prev [] = none
  bracket_from flows prev (point ∷ rest) =
      elim (is_nan (xnpv prev flows) || is_nan (xnpv point flows)) [
        | true ↦ bracket_from flows point rest
        | false ↦ elim (eq (xnpv prev flows) zero_float) [
          | true ↦ some (prev, prev)
          | false ↦ elim (lt (mul (xnpv prev flows) (xnpv point flows)) zero_float) [
            | true ↦ some (prev, point)
            | false ↦ bracket_from flows point rest
          ]
        ]
      ]

  abbrev from_first : List (CashFlow F) → List F → Option (F × F)
  from_first flows [] = none
  from_first flows (p ∷ ps) = bracket_from flows p ps

  -- bracketXIRR
  unfoldable pub bracket_xirr : List (CashFlow F) → Option (F × F)
  bracket_xirr flows = from_first flows points

  -- (low + high) / 2
  abbrev pub middle : F → F → F
  middle low high = div (add low high) (of_int (pos 2))

  -- The loop of `bisectXIRR`, with the rounds that it has left.
  unfoldable pub bisect_from : ℕ → List (CashFlow F) → F → F → F → Option F
  bisect_from zero flows low high npv_low = some (middle low high)
  bisect_from (suc rounds) flows low high npv_low =
      let mid = middle low high in
      elim (is_nan (xnpv mid flows)) [
        | true ↦ none
        | false ↦
            elim (lt (abs (xnpv mid flows)) tolerance
              || lt (abs (sub high low)) (decimal (pos 1) 7)) [
                | true ↦ some mid
                | false ↦ elim (lt (mul npv_low (xnpv mid flows)) zero_float) [
                  | true ↦ bisect_from rounds flows low mid npv_low
                  | false ↦ bisect_from rounds flows mid high (xnpv mid flows)
                ]
              ]
      ]

  -- bisectXIRR
  unfoldable pub bisect_xirr : List (CashFlow F) → F → F → Option F
  bisect_xirr flows low high =
      let a = xnpv low flows in
      let b = xnpv high flows in
      elim (is_nan a || is_nan b || lt zero_float (mul a b)) [
        | true ↦ none
        | false ↦ bisect_from 100 flows low high a
      ]

  abbrev bisect_bracket : List (CashFlow F) → Option (F × F) → Option F
  bisect_bracket flows none = none
  bisect_bracket flows (some (low, high)) = bisect_xirr flows low high

  -- xirr
  unfoldable pub xirr : List (CashFlow F) → Option F
  xirr flows = elim (ltb (length flows) 2) [
    | true ↦ none
    | false ↦ elim (xirr_newton 100 flows (decimal (pos 1) 1)) [
      | some rate ↦ some rate
      | none ↦ bisect_bracket flows (bracket_xirr flows)
    ]
  ]
